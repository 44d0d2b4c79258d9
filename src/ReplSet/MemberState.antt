-- ===== src/ReplSet/MemberState.antt =====
-- The member states that mongodb/replica_set_types.go names.
use terraform_provider_mongo.Prelude.{ℤ, pos}

abbrev pub startup : ℤ
startup = pos 0

abbrev pub primary : ℤ
primary = pos 1

abbrev pub secondary : ℤ
secondary = pos 2

abbrev pub recovering : ℤ
recovering = pos 3

abbrev pub startup2 : ℤ
startup2 = pos 5

abbrev pub unknown : ℤ
unknown = pos 6

abbrev pub arbiter : ℤ
arbiter = pos 7

abbrev pub down : ℤ
down = pos 8

abbrev pub rollback : ℤ
rollback = pos 9

abbrev pub removed : ℤ
removed = pos 10
