-- ===== src/Keeper/Loop/DrawIds.antt =====
-- The draws whose claims are looked at: those made final in this round and the recent ones, each
-- once and in order.
use everdraw.Base.{
  copies, add_ids, copies-sort, copies-add_ids, ℕ, zero, suc, ◌+◌, ◌-◌, ◌≤◌, ◌<◌, ◌≡◌, refl, ◌∙◌,
  false, List, [], arith, if◌then◌else◌, Bool-cases, inl, inr, ◌⊎◌, ◌==◌, ltb, leb, Ascending,
  sort_by-Ascending, ◌&&◌, ◌||◌, ok,
}
use everdraw.Keeper.Loop.{count_from, claim_draw_ids, first_recent_draw_id}

copies-count_from :
    (id first n : ℕ)
    → copies id (count_from first n) ≡ (if leb first id && ltb id (first + n) then 1 else 0)
unfolding count_from
copies-count_from id first zero = ground arith
copies-count_from id first (suc n) = ground (arith, copies-count_from id (suc first) n)

-- The draws come in order, and a draw is among them, once, exactly if it was made final in this
-- round or is one from the first recent draw to the current one.
pub claim_draw_ids_lem :
    (finalized : List ℕ) (first current : ℕ)
    → Ascending (λ id. id) (claim_draw_ids finalized first current)
      × ((id : ℕ)
          → copies id (claim_draw_ids finalized first current)
            ≡ (if ltb 0 (copies id finalized) || (leb first id && leb id current) then 1 else 0))
unfolding claim_draw_ids
claim_draw_ids_lem finalized first current =
    let recent = count_from first (current + 1 - first) in
    let old = add_ids [] finalized in
    (
      sort_by-Ascending (λ id. id) (add_ids old recent),
      λ id.
          let counted = copies-count_from id first (current + 1 - first) in
          let before = copies-add_ids id [] finalized (omega arith) in
          let all = copies-add_ids id old recent (ground (arith, before)) in
          let sorted = copies-sort id (add_ids old recent) in
          sorted ∙ ground (arith, all, before, counted),
    )

-- With a window that is not 0, the recent draws are the last draws of that number, or all of them,
-- and the current one is among them.
pub first_recent_draw_id_lem :
    (current size : ℕ)
    → 0 < size
    → 0 < current
    → (first : ℕ) × (first_recent_draw_id current size ≡ ok first)
      × (0 < first)
      × (first ≤ current)
      × ((current + 1 ≡ first + size) ⊎ ((first ≡ 1) × (current ≤ size)))
unfolding first_recent_draw_id
first_recent_draw_id_lem current size p q =
    let some_window : (size == 0) ≡ false = ground arith in
    elim (Bool-cases (ltb size current)) [
      | inl more ↦ (
        current - size + 1,
        rw (some_window, more),
        omega arith,
        ground (arith, more),
        inl (ground (arith, more)),
      )
      | inr few ↦ (1, rw (some_window, few), omega arith, q, inr (refl, ground (arith, few)))
    ]
