-- ===== src/Cwc/Id/Examples.antt =====
-- Identifiers at concrete ones.
use dpapp.Common.{ℕ, ◌+◌, ◌≡◌, refl, some, List, [], ◌∷◌, arith, length, inl}
use dpapp.Cwc.Id.{
  Fields, base_ts, next, ids, to_base62, to_uint64, fill, base62_char, while_waiting,
}
use dpapp.Cwc.Id.Text.{to_uint64-to_base62}
use dpapp.Cwc.Id.Unique.{Differ, ids-Differ}

to_uint64-to_base62_example :
    (to_uint64 (some (to_base62 3849)) ≡ 3849) × (length (to_base62 3849) ≡ 11)
to_uint64-to_base62_example = to_uint64-to_base62 3849 (omega arith)

-- 3849 is 1 * 62 ^ 2 + 0 * 62 + 5.
text : to_base62 3849 ≡ 48 ∷ 48 ∷ 48 ∷ 48 ∷ 48 ∷ 48 ∷ 48 ∷ 48 ∷ 49 ∷ 48 ∷ 53 ∷ []
unfolding to_base62 fill base62_char
text = refl

abbrev three_calls : List (ℕ × List ℕ)
three_calls = (base_ts + 7, []) ∷ (base_ts + 7, []) ∷ (base_ts + 9, (base_ts + 10) ∷ []) ∷ []

ids-Differ_example :
    (xs : List ℕ) × (ids 1 2 (record { sequence = 0; timestamp = 0 }) three_calls ≡ some xs)
    × Differ xs
ids-Differ_example = ids-Differ 1 2 three_calls base_ts (omega arith) (omega arith) (
  (omega arith, omega arith, refl),
  inl (omega arith),
  (
    (omega arith, omega arith, refl),
    inl (omega arith),
    ((omega arith, omega arith, (omega arith, omega arith, refl)), inl (omega arith), refl),
  ),
)

abbrev at_seven : Fields
at_seven = record { sequence = 0; thread_id = 2; machine_id = 1; timestamp = 7 }

-- At the same time a coroutine that calls dpcwc_id_next while another one waits in it gets an
-- identifier that was given out before.
first_call :
    next 1 2 (record { sequence = 0; timestamp = 0 }) (base_ts + 7) []
    ≡ some (at_seven, record { sequence = 1; timestamp = 7 })
unfolding next
first_call = refl

call_meanwhile :
    next 1 2 (while_waiting (record { sequence = 1023; timestamp = 7 })) (base_ts + 7) []
    ≡ some (at_seven, record { sequence = 1; timestamp = 7 })
unfolding next
call_meanwhile = refl
