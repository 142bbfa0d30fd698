-- ===== src/Governance/Requests/Tests.antt =====
-- A request that is verified, worked on and completed (packages/governance/src/requests.ts).
use vibefy.Prelude.{ℕ, refl}
use vibefy.Governance.Requests.{
  received, verifying, in_progress, completed, transitions, can_transition,
}
use vibefy.Governance.Requests.Moves.{Moves, start, move}

abbrev moved : ℕ
moved = 3

answered : Moves received completed 3
unfolding can_transition transitions
answered = move {t = in_progress} (move {t = verifying} (move {t = received} start refl) refl) refl
