-- ===== src/Buf/Scan/From.antt =====
-- `dpbuf_cfind` from a position on, before which the string does not stand.
use dpapp.Common.{
  ℕ, ◌+◌, ◌-◌, ◌≤◌, ◌<◌, ◌≡◌, sym, ap, ◌∙◌, inl, inr, true, false, ◌||◌, none, some, ◌==◌, arith,
  length, length-take, length-drop, take, drop, drop-drop, drop-take, ltb, ltb→lt, Bool-cases,
  Option-cases, take-of_length_le,
}
use dpapp.Common.Int.{ℤ, pos, negsuc, ltb_ℤ, index-add, index, sub_ℕ, ◌-ℤ◌, add_pos}
use dpapp.Common.Outcome.{done, Returns, returns}
use dpapp.Mem.{Block, memmem, slice}
use dpapp.Mem.Slice.{read_at-done, length-slice}
use dpapp.Mem.Search.{OccursAt, IsFirst, memmem-IsFirst, memmem-none}
use dpapp.Buf.{Buf, bytes, crsize}
use dpapp.Buf.Scan.{cfind}
use dpapp.Buf.Valid.{IsValid, readable}

-- What a search for `sub` in `hay` answers: the first position, or a negative value.
pub data Search (hay sub : Block) : ℤ → Type 0 where
  hit : (i : ℕ) → IsFirst hay sub i → Search hay sub (pos i)
  miss : (n : ℕ) → ((i : ℕ) → ¬ OccursAt hay sub i) → Search hay sub (negsuc n)

pub OccursAt-le :
    (hay sub : Block) (i : ℕ) → 0 < length sub → OccursAt hay sub i → i + length sub ≤ length hay
OccursAt-le hay sub i p o =
    omega (arith, ap length o, length-take (length sub) (drop i hay), length-drop i hay)

-- What stands in the part from `left` on stands in the whole at the distance `left`.
OccursAt-drop :
    (hay sub : Block) (left i : ℕ) → OccursAt (drop left hay) sub i → OccursAt hay sub (left + i)
OccursAt-drop hay sub left i o = ap (take (length sub)) (sym (drop-drop i left hay)) ∙ o

drop-OccursAt :
    (hay sub : Block) (left i : ℕ)
    → left ≤ i
    → OccursAt hay sub i
    → OccursAt (drop left hay) sub (i - left)
drop-OccursAt hay sub left i h o =
    let e : left + (i - left) ≡ i = omega arith in
    ap (take (length sub)) (drop-drop (i - left) left hay)
    ∙ ap (λ (j : ℕ). take (length sub) (drop j hay)) e
    ∙ o

module _ (hay sub : Block) (left : ℕ) (before : (j : ℕ) → j < left → ¬ OccursAt hay sub j)
    (inside : left ≤ length hay) where
  IsFirst-drop : (i : ℕ) → IsFirst (drop left hay) sub i → IsFirst hay sub (left + i)
  IsFirst-drop i f = record {
    occurs = OccursAt-drop hay sub left i f.occurs;
    first = λ j lt o. elim (Bool-cases (ltb j left)) [
      | inl h ↦ before j (ground (arith, h)) o
      | inr h ↦
          let ge : left ≤ j = ground (arith, h) in
          f.first (j - left) (omega arith) (drop-OccursAt hay sub left j ge o)
    ];
    inside = omega (arith, f.inside, length-drop left hay);
  }

  none-drop : 0 < length sub → memmem (drop left hay) sub ≡ none → (i : ℕ) → ¬ OccursAt hay sub i
  none-drop p e i o = elim (Bool-cases (ltb i left)) [
    | inl h ↦ before i (ground (arith, h)) o
    | inr h ↦
        let ge : left ≤ i = ground (arith, h) in
        memmem-none (drop left hay) sub e (i - left)
          (omega (arith, length-drop left hay, OccursAt-le hay sub i p o))
          (drop-OccursAt hay sub left i ge o)
  ]

index-sub_left : (a b left : ℕ) → b + left ≤ a → index (sub_ℕ a b -ℤ pos left) ≡ done (a - b - left)
unfolding ◌-ℤ◌
index-sub_left a b left h = ground arith

-- Dpbuf_cfind.
pub cfind-Search :
    {b : Buf} (sub : Block) (left : ℕ)
    → IsValid b
    → 0 < length sub
    → left ≤ b.rend - b.rbeg
    → ((j : ℕ) → j < left → ¬ OccursAt (readable b) sub j)
    → Returns (Search (readable b) sub) (cfind b (some sub) (pos (length sub)) (pos left))
unfolding cfind
cfind-Search {b} sub left v p far before = elim (Bool-cases (ltb (b.rend - b.rbeg) (length sub))) [
  | inl short ↦
      let e : (length sub == 0 || ltb_ℤ (crsize b) (pos (length sub))) ≡ true = ground arith in
      rw e (
        returns (
          miss _ λ i o.
            omega (
              arith,
              ltb→lt (b.rend - b.rbeg) (length sub) short,
              OccursAt-le _ sub i p o,
              window,
            )))
  | inr fits ↦
      let e : (length sub == 0 || ltb_ℤ (crsize b) (pos (length sub))) ≡ false = ground arith in
      let hay : slice (bytes b) (b.rbeg + left) (b.rend - b.rbeg - left) ≡ drop left (readable b) =
        ap (take (b.rend - b.rbeg - left)) (sym (drop-drop left b.rbeg (bytes b)))
        ∙ sym (drop-take left (b.rend - b.rbeg) (drop b.rbeg (bytes b))) in
      rw
        (
          e,
          index-add b.rbeg left,
          index-sub_left b.rend b.rbeg left (omega (arith, v.read_order)),
          read_at-done (bytes b) (b.rbeg + left) (b.rend - b.rbeg - left) (omega arith),
          read_at-done sub 0 (length sub) (omega arith),
          take-of_length_le (length sub) sub (omega arith),
          hay,
        )
        (elim (Option-cases (memmem (drop left (readable b)) sub)) [
          | inl e ↦ rw e (
              returns (miss _ (none-drop (readable b) sub left before (omega (arith, window)) p e)))
          | inr (i, e) ↦
              rw (e, add_pos left i)
                (returns (
                  hit (left + i) (
                    IsFirst-drop (readable b) sub left before (omega (arith, window)) i
                      (memmem-IsFirst _ sub e))))
        ])
]
  where
    window : length (readable b) ≡ b.rend - b.rbeg
    window = length-slice (bytes b) b.rbeg (b.rend - b.rbeg) (omega arith)

pub cfind-Search_at :
    {b : Buf} (sub : Block) (n left : ℕ)
    → IsValid b
    → n ≡ length sub
    → 0 < n
    → left ≤ b.rend - b.rbeg
    → ((j : ℕ) → j < left → ¬ OccursAt (readable b) sub j)
    → Returns (Search (readable b) sub) (cfind b (some sub) (pos n) (pos left))
cfind-Search_at sub n left v e p far before =
    rw e (cfind-Search sub left v (omega arith) far before)
