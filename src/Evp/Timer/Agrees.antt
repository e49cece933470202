-- ===== src/Evp/Timer/Agrees.antt =====
-- The tree and the elements agree on which timers run, and `dptmrset_expire` takes the first.
use dpapp.Common.{ℕ, ◌≡◌, refl, inl, inr, true, false, ◌==◌, arith, Bool-cases}
use mathlib.Core.Path.{subst}
use dpapp.Evp.Timer.{Tree, Timing, Timers, set_ele, timed, untimed}

-- The tree has the element at `b` at its time, and only there, if its timer runs, and else nowhere.
pub record AgreeAt {T : Type 0} (ops : Tree T) (tree : T) (t : Timing) (b : ℕ) : Type 0 where
  pub runs : (e : ℕ) → ops.has tree e b ≡ true → (t.timing ≡ true) × (t.expire ≡ e)
  pub kept : t.timing ≡ true → ops.has tree t.expire b ≡ true

pub record Agree {T : Type 0} (ops : Tree T) (s : Timers T) : Type 0 where
  pub at : (b : ℕ) → AgreeAt ops s.tree (s.ele b) b

module _ {T : Type 0} (ops : Tree T) where
  pub absent-AgreeAt :
      (tree : T) (t : Timing) (b : ℕ)
      → t.timing ≡ false
      → AgreeAt ops tree t b
      → (e : ℕ) → ops.has tree e b ≡ false
  absent-AgreeAt tree t b idle g e = elim (Bool-cases (ops.has tree e b)) [
    | inl h ↦ cc (idle, (g.runs e h).0)
    | inr h ↦ h
  ]

  pub insert-AgreeAt :
      (tree : T) (t : Timing) (e a : ℕ)
      → ((e' : ℕ) → ops.has tree e' a ≡ false)
      → AgreeAt ops (ops.insert tree e a) (timed t e) a
  insert-AgreeAt tree t e a absent = record {
    runs =
        λ e' h. let i = ops.has-insert tree e a e' a in let n = absent e' in (refl, ground arith);
    kept = λ _. let i = ops.has-insert tree e a e a in ground arith;
  }

  pub insert-other :
      (tree : T) (t : Timing) (e a b : ℕ)
      → (b == a) ≡ false
      → AgreeAt ops tree t b
      → AgreeAt ops (ops.insert tree e a) t b
  insert-other tree t e a b other g = record {
    runs = λ e' h. let i = ops.has-insert tree e a e' b in g.runs e' (ground arith);
    kept = λ h. let i = ops.has-insert tree e a t.expire b in let k = g.kept h in ground arith;
  }

  pub remove-other :
      (tree : T) (t : Timing) (e a b : ℕ)
      → (b == a) ≡ false
      → AgreeAt ops tree t b
      → AgreeAt ops (ops.remove tree e a) t b
  remove-other tree t e a b other g = record {
    runs = λ e' h. let i = ops.has-remove tree e a e' b in g.runs e' (ground arith);
    kept = λ h. let i = ops.has-remove tree e a t.expire b in let k = g.kept h in ground arith;
  }

  pub remove-absent :
      (tree : T) (t : Timing) (a e : ℕ)
      → AgreeAt ops tree t a
      → ops.has (ops.remove tree t.expire a) e a ≡ false
  remove-absent tree t a e g = elim (Bool-cases (ops.has tree e a)) [
    | inl h ↦
        let i = ops.has-remove tree t.expire a e a in let same = (g.runs e h).1 in ground arith
    | inr h ↦ let i = ops.has-remove tree t.expire a e a in ground arith
  ]

  pub none-AgreeAt :
      (tree : T) (t : Timing) (a : ℕ)
      → ((e : ℕ) → ops.has tree e a ≡ false)
      → AgreeAt ops tree (untimed t) a
  none-AgreeAt tree t a absent = record { runs = λ e h. cc (h, absent e); kept = λ h. cc }

  -- One element is changed.
  pub set-Agree :
      (tree : T) (ele : ℕ → Timing) (a : ℕ) (t : Timing)
      → AgreeAt ops tree t a
      → ((b : ℕ) → (b == a) ≡ false → AgreeAt ops tree (ele b) b)
      → Agree ops record { tree = tree; ele = set_ele ele a t }
  set-Agree tree ele a t here others = record {
    at = λ b. elim (Bool-cases (b == a)) [
      | inl same ↦
          let p : a ≡ b = ground arith in rw same (subst (λ b. AgreeAt ops tree t b) p here)
      | inr other ↦ rw other (others b other)
    ];
  }
