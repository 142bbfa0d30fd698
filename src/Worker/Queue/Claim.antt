-- ===== src/Worker/Queue/Claim.antt =====
-- Which request a worker gets (`claimNextRequest` of apps/worker/src/queue.ts).
use vibefy.Prelude.{
  ◌≤◌, String, true, some, List, [], ◌∷◌, Memᴰ, filter, mem_filter→, mem_filter←, mem_cons_elim,
  ltb, ◌≡◌, refl, inl, inr, Bool-cases, arith,
}
use vibefy.Worker.Queue.{Request, is_available, oldest_from, oldest, next_queued}

oldest_from-mem :
    (best : Request) (rows : List Request) → Memᴰ (oldest_from best rows) (best ∷ rows)
unfolding oldest_from
oldest_from-mem best [] = Memᴰ.head refl
oldest_from-mem best (r ∷ rows) = elim (Bool-cases (ltb r.created_at best.created_at)) [
  | inl older ↦ rw older (Memᴰ.tail (oldest_from-mem r rows))
  | inr younger ↦ rw younger (skip (oldest_from-mem best rows))
]
  where
    skip : {x : Request} → Memᴰ x (best ∷ rows) → Memᴰ x (best ∷ r ∷ rows)
    skip (Memᴰ.head q) = Memᴰ.head q
    skip (Memᴰ.tail m) = Memᴰ.tail (Memᴰ.tail m)

oldest_from-le :
    (best : Request) (rows : List Request)
    → ((oldest_from best rows).created_at ≤ best.created_at)
      × ((x : Request) → Memᴰ x rows → (oldest_from best rows).created_at ≤ x.created_at)
unfolding oldest_from
oldest_from-le best [] = (omega arith, λ x m. elim m [ ])
oldest_from-le best (r ∷ rows) = elim (Bool-cases (ltb r.created_at best.created_at)) [
  | inl older ↦
      let (first, others) = oldest_from-le r rows in
      rw older (ground (arith, older, first), mem_cons_elim _ first others)
  | inr younger ↦
      let (first, others) = oldest_from-le best rows in
      rw younger (first, mem_cons_elim _ (ground (arith, younger, first)) others)
]

oldest_lem :
    (rows : List Request) {c : Request}
    → oldest rows ≡ some c
    → Memᴰ c rows × ((x : Request) → Memᴰ x rows → c.created_at ≤ x.created_at)
oldest_lem [] h = cc
oldest_lem (r ∷ rows) {c} h =
    let e : oldest_from r rows ≡ c = cc h in
    let (first, others) = oldest_from-le r rows in
    rw (← e) (oldest_from-mem r rows, mem_cons_elim _ first others)

-- The row that is taken is one that may be, and no row that may be is older.
pub next_queued_lem :
    (locked : List String) (rows : List Request) {c : Request}
    → next_queued locked rows ≡ some c
    → Memᴰ c rows
      × ((is_available locked c ≡ true)
          × ((x : Request)
              → Memᴰ x rows
              → is_available locked x ≡ true
              → c.created_at ≤ x.created_at))
unfolding next_queued
next_queued_lem locked rows h =
    let (m, least) = oldest_lem (filter (is_available locked) rows) h in
    let (there, available) = mem_filter→ (is_available locked) rows m in
    (there, (available, λ x n a. least x (mem_filter← (is_available locked) n a)))
