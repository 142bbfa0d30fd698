-- ===== src/Governance/Spend/Tests.antt =====
-- Days of spending (packages/governance/src/spend.ts).
use vibefy.Prelude.{false}
use vibefy.Governance.Spend.{cents, SpendObservation}

abbrev busy : SpendObservation
busy = record { today = cents 17000; free_tier_this_week = cents 300; already_paused = false }
