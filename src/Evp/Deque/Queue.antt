-- ===== src/Evp/Deque/Queue.antt =====
-- The linked queues do what lists do.
use dpapp.Common.{ℕ, ◌≡◌, refl, sym, ◌∙◌, false, ◌||◌, Option, none, some, List, [], ◌∷◌, ◌++◌}
use mathlib.Core.Path.{subst}
use dpapp.Evp.Deque.{
  Heap, Deque, set_prev, set_next, is_some, points_to, push_behind, push_back, pop_to, pop_head,
  pop_front, pushq_behind, pushq_from, pushq,
}
use dpapp.Evp.Deque.Segment.{
  Apart, Distinct-append, NotIn-Apart, Apart-last_of, Apart-one, append-nil, first, last, last_of,
  Row, NotIn, Distinct, Row-set_prev, Row-set_next, Row-front, Row-behind, Row-append, last-last_of,
  last-append, self,
}

-- The queue holds these elements in this order.
pub record IsQueue (h : Heap) (dq : Deque) (xs : List ℕ) : Type 0 where
  pub at_head : dq.head ≡ first xs none
  pub at_tail : dq.tail ≡ last none xs
  pub row : Row h none xs none
  pub distinct : Distinct xs

-- An element that is in no queue.
abbrev pub IsFree : Heap → ℕ → Type 0
IsFree h a = ((h a).prev ≡ none) × ((h a).next ≡ none)

-- `src` behind `dst`.
behind-IsQueue :
    (h : Heap) (dst src : Deque) (xs : List ℕ) (s : ℕ) (ss : List ℕ)
    → IsQueue h dst xs
    → IsQueue h src (s ∷ ss)
    → Apart xs (s ∷ ss)
    → let out = pushq_behind (last none xs) (set_prev h s (last none xs)) s dst src in
      IsQueue (out.0) (out.1) (xs ++ s ∷ ss)
behind-IsQueue h dst src [] s ss d q a = record {
  at_head = q.at_head;
  at_tail = q.at_tail;
  row = Row-front h none s ss none none ((q.distinct).0) q.row;
  distinct = q.distinct;
}
behind-IsQueue h dst src (x ∷ xs) s ss d q a =
    let l = last_of x xs in
    let h1 = set_prev h s (some l) in
    rw (last-last_of none x xs) record {
      at_head = d.at_head;
      at_tail = q.at_tail ∙ sym (last-append none (x ∷ xs) (s ∷ ss));
      row =
          Row-append (set_next h1 l (some s)) none (x ∷ xs) (s ∷ ss) none
            (Row-behind h1 none x xs none (some s) d.distinct
              (Row-set_prev h none (x ∷ xs) none s (some l) (NotIn-Apart s ss (x ∷ xs) a) d.row))
            (rw (last-last_of none x xs) (
              Row-set_next h1 (some l) (s ∷ ss) none l (some s) (Apart-last_of x xs (s ∷ ss) a)
                (Row-front h none s ss none (some l) ((q.distinct).0) q.row)));
      distinct = Distinct-append (x ∷ xs) (s ∷ ss) d.distinct q.distinct a;
    }

emptied-IsQueue :
    (t : Option ℕ) (h h' : Heap) (s : ℕ) (dst src : Deque)
    → IsQueue h' ((pushq_behind t h s dst src).2) []
emptied-IsQueue none h h' s dst src = record {
  at_head = refl;
  at_tail = refl;
  row = tt;
  distinct = tt;
}
emptied-IsQueue (some t) h h' s dst src = record {
  at_head = refl;
  at_tail = refl;
  row = tt;
  distinct = tt;
}

pushq_from-IsQueue :
    (h : Heap) (dst src : Deque) (xs ys : List ℕ)
    → IsQueue h dst xs
    → IsQueue h src ys
    → Apart xs ys
    → let out = pushq_from (first ys none) h (record dst { tail = last none xs }) src in
      IsQueue (out.0) (out.1) (xs ++ ys) × IsQueue (out.0) (out.2) []
pushq_from-IsQueue h dst src xs [] d q a = (
  rw (append-nil xs)
      record { at_head = d.at_head; at_tail = refl; row = d.row; distinct = d.distinct },
  q,
)
pushq_from-IsQueue h dst src xs (s ∷ ss) d q a =
    let dst' = record dst { tail = last none xs } in
    let d' : IsQueue h dst' xs = record {
      at_head = d.at_head;
      at_tail = refl;
      row = d.row;
      distinct = d.distinct;
    } in
    (behind-IsQueue h dst' src xs s ss d' q a, emptied-IsQueue (last none xs) _ _ s dst' src)

pushq-IsQueue :
    (h : Heap) (dst src : Deque) (xs ys : List ℕ)
    → IsQueue h dst xs
    → IsQueue h src ys
    → Apart xs ys
    → let out = pushq h dst src in IsQueue (out.0) (out.1) (xs ++ ys) × IsQueue (out.0) (out.2) []
unfolding pushq
pushq-IsQueue h dst src xs ys d q a =
    subst
      (λ f.
        let out = pushq_from f h dst src in
        IsQueue (out.0) (out.1) (xs ++ ys) × IsQueue (out.0) (out.2) [])
      (sym q.at_head)
      (subst
        (λ t.
          let out = pushq_from (first ys none) h (record dst { tail = t }) src in
          IsQueue (out.0) (out.1) (xs ++ ys) × IsQueue (out.0) (out.2) [])
        (sym d.at_tail) (pushq_from-IsQueue h dst src xs ys d q a))

-- The queue of one free element.
one-IsQueue :
    (h : Heap) (e : ℕ)
    → (h e).prev ≡ none
    → IsQueue (set_next h e none) (record { head = some e; tail = some e }) (e ∷ [])
one-IsQueue h e p = record {
  at_head = refl;
  at_tail = refl;
  row = rw (self e) (p, refl, tt);
  distinct = (tt, tt);
}

-- `push_back` is `pushq` of one element.
push_behind-pushq :
    (t : Option ℕ) (h : Heap) (dq : Deque) (e : ℕ)
    → let out = pushq_behind t h e dq record { head = some e; tail = some e } in
      push_behind t h dq e ≡ (out.0, out.1)
push_behind-pushq none h dq e = refl
push_behind-pushq (some t) h dq e = refl

free-guard :
    (p n head : Option ℕ) (xs : List ℕ) (e : ℕ)
    → p ≡ none
    → n ≡ none
    → head ≡ first xs none
    → NotIn e xs
    → (is_some p || (is_some n || points_to head e)) ≡ false
free-guard p n head [] e f g k a = rw (f, g, k) refl
free-guard p n head (x ∷ xs) e f g k (a, b, c) = rw (f, g, k) a

push_back-IsQueue :
    (h : Heap) (dq : Deque) (xs : List ℕ) (e : ℕ)
    → IsQueue h dq xs
    → IsFree h e
    → NotIn e xs
    → let out = push_back h dq e in IsQueue (out.0) (out.1) (xs ++ e ∷ [])
unfolding push_back
push_back-IsQueue h dq xs e d f n =
    let h' = set_next h e none in
    let d' : IsQueue h' dq xs = record {
      at_head = d.at_head;
      at_tail = d.at_tail;
      row = Row-set_next h none xs none e none n d.row;
      distinct = d.distinct;
    } in
    let t = last none xs in
    rw (free-guard ((h e).prev) ((h e).next) dq.head xs e (f.0) (f.1) d.at_head n) (
      subst
        (λ t.
          let out = push_behind t (set_prev h' e t) dq e in IsQueue (out.0) (out.1) (xs ++ e ∷ []))
        (sym d.at_tail)
        (rw (push_behind-pushq t (set_prev h' e t) dq e) (
          behind-IsQueue h' dq record { head = some e; tail = some e } xs e [] d'
            (one-IsQueue h e (f.0)) (Apart-one e xs n))))

pop_to-IsQueue :
    (h : Heap) (dq : Deque) (x : ℕ) (xs : List ℕ)
    → IsQueue h dq (x ∷ xs)
    → let out = pop_to (first xs none) h dq in
      let h' = set_next (set_prev (out.0) x none) x none in IsQueue h' (out.1) xs × IsFree h' x
pop_to-IsQueue h dq x [] d =
    (record { at_head = refl; at_tail = refl; row = tt; distinct = tt }, rw (self x) (refl, refl))
pop_to-IsQueue h dq x (y ∷ ys) d =
    let n = (d.distinct).0 in
    let r = (d.row).2 in
    let h1 = set_prev h y none in
    (
      record {
        at_head = refl;
        at_tail = d.at_tail;
        row = Row-set_next (set_prev h1 x none) none (y ∷ ys) none x none n (
            Row-set_prev h1 none (y ∷ ys) none x none n
              (Row-front h (some x) y ys none none (((d.distinct).1).0) r));
        distinct = (d.distinct).1;
      },
      rw (self x) (refl, refl),
    )

pop_front-IsQueue :
    (h : Heap) (dq : Deque) (x : ℕ) (xs : List ℕ)
    → IsQueue h dq (x ∷ xs)
    → let out = pop_front h dq in (out.0 ≡ some x) × IsQueue (out.1) (out.2) xs × IsFree (out.1) x
unfolding pop_front
pop_front-IsQueue h dq x xs d =
    subst
      (λ t.
        let out = pop_head t h dq in
        (out.0 ≡ some x) × IsQueue (out.1) (out.2) xs × IsFree (out.1) x)
      (sym d.at_head)
      (subst
        (λ t.
          let out = pop_to t h dq in
          let h' = set_next (set_prev (out.0) x none) x none in
          (some x ≡ some x) × IsQueue h' (out.1) xs × IsFree h' x)
        (sym ((d.row).1)) (let r = pop_to-IsQueue h dq x xs d in (refl, r.0, r.1)))

-- What `pop_front` answers for a queue that holds a list.
abbrev pub Popped : Heap → Deque → List ℕ → Option ℕ × Heap × Deque → Type 0
Popped h dq [] (e, h', dq') = (e ≡ none) × IsQueue h' dq' []
Popped h dq (x ∷ xs) (e, h', dq') = (e ≡ some x) × IsQueue h' dq' xs × IsFree h' x

pop_front-Popped :
    (h : Heap) (dq : Deque) (xs : List ℕ) → IsQueue h dq xs → Popped h dq xs (pop_front h dq)
unfolding pop_front
pop_front-Popped h dq [] d = subst (λ t. Popped h dq [] (pop_head t h dq)) (sym d.at_head) (refl, d)
pop_front-Popped h dq (x ∷ xs) d = pop_front-IsQueue h dq x xs d

-- The linked queues do what lists do. On two queues that hold lists without a common element,
-- linked in both directions, and for an element that is in no queue: push_back puts it behind the
-- list; pop_front answers the first element, takes it off and leaves it in no queue, or answers
-- none where the list is empty; pushq puts the second list behind the first and leaves the second
-- empty. The rows stay linked in both directions, with head and tail at their ends.
pub deque-IsQueue :
    (h : Heap) (dq other : Deque) (xs ys : List ℕ) (e : ℕ)
    → IsQueue h dq xs
    → IsQueue h other ys
    → Apart xs ys
    → IsFree h e
    → NotIn e xs
    → (let out = push_back h dq e in IsQueue (out.0) (out.1) (xs ++ e ∷ []))
      × Popped h dq xs (pop_front h dq)
      × (let out = pushq h dq other in
          IsQueue (out.0) (out.1) (xs ++ ys) × IsQueue (out.0) (out.2) [])
deque-IsQueue h dq other xs ys e d q a f n = (
  push_back-IsQueue h dq xs e d f n,
  pop_front-Popped h dq xs d,
  pushq-IsQueue h dq other xs ys d q a,
)
