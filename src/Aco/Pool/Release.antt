-- ===== src/Aco/Pool/Release.antt =====
-- `dpaco_thfree` gives every block back.
use dpapp.Common.{ℕ, ◌≡◌, refl, ap, ◌∙◌, Option, none, some, List, [], ◌∷◌, length}
use dpapp.Common.Outcome.{done, Returns, returns, Returns-bind, Returns-mono}
use dpapp.Aco.{Heap, Co, World, put, live_block}
use dpapp.Aco.Pool.{release, release_main, free_list, thfree}
use dpapp.Aco.Pool.Free.{
  Absent, behind, Linked-First, Linked-empty, Linked, HasPool, put-same, put-other, Linked-put,
}

-- None of the blocks is live.
pub data Gone (h : Heap) : List ℕ → Type 0 where
  all_gone : Gone h []
  one_gone : {i : ℕ} {rs : List ℕ} → h i ≡ none → Gone h rs → Gone h (i ∷ rs)

pub record Released (h : Heap) (rs : List ℕ) (h' : Heap) : Type 0 where
  pub gone : Gone h' rs
  pub others : (k : ℕ) → Absent k rs → h' k ≡ h k

release-live : (h : Heap) (i : ℕ) {co : Co} → h i ≡ some co → release h i ≡ done (put h i none)
unfolding release
release-live h i live = rw (ap live_block live) refl

step-Released :
    {h h' : Heap} {i : ℕ} {rs : List ℕ}
    → Absent i rs
    → Released (put h i none) rs h'
    → Released h (i ∷ rs) h'
step-Released {h} {h'} {i} {rs} out rel = record {
  gone = one_gone (rel.others i out ∙ put-same h i none) rel.gone;
  others = others_of;
}
  where
    others_of : (k : ℕ) → Absent k (i ∷ rs) → h' k ≡ h k
    others_of k (behind ne away) = rel.others k away ∙ put-other h none ne

free_list-Released :
    (h : Heap) (r : Option ℕ) (rs : List ℕ)
    → Linked h r rs
    → Returns (Released h rs) (free_list (length rs) h r)
unfolding free_list
free_list-Released h r [] l =
    rw (Linked-empty l) (returns record { gone = all_gone; others = λ k out. refl })
free_list-Released h r (i ∷ js) l =
    let first = Linked-First l in
    rw (first.points, ap live_block first.live, release-live h i first.live)
      (Returns-mono
        (free_list-Released (put h i none) first.co.link js (Linked-put none first.rest first.out))
        λ h' rel. step-Released first.out rel)

-- The environment of a thread after `dpaco_thfree`, and what became of the blocks.
pub record Cleared (w : World) (m : ℕ) (rs : List ℕ) (w' : World) : Type 0 where
  pub blocks : Released w.heap (m ∷ rs) w'.heap
  pub no_main : w'.comain ≡ none
  pub no_current : w'.cocurr ≡ none
  pub no_recycle : w'.recycle ≡ none
  pub no_count : w'.recycle_count ≡ 0

-- Dpaco_thfree, with as many rounds as the list for reuse is long, frees the main coroutine and
-- each block of the list once, leaves every other block alone and clears the environment, without
-- undefined behaviour.
pub thfree-Cleared :
    {w : World} {m : ℕ} (main : Co) {rs : List ℕ}
    → w.comain ≡ some m
    → w.heap m ≡ some main
    → HasPool w rs
    → Absent m rs
    → Returns (Cleared w m rs) (thfree (length rs) w)
unfolding thfree
thfree-Cleared {w} {m} main {rs} is_main live pool out = rw (ap (release_main w.heap) is_main) (
    rw (release-live w.heap m live) (
      Returns-bind
        (free_list-Released (put w.heap m none) w.recycle rs (Linked-put none pool.linked out))
        λ h rel. returns record {
          blocks = step-Released out rel;
          no_main = refl;
          no_current = refl;
          no_recycle = refl;
          no_count = refl;
        }))
