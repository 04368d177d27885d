-- ===== src/Examples/Leases.antt =====
-- crates/openlive-runtime/src/lease.rs at concrete histories.
use openlive.Common.{ℕ, ◌≡◌, ◌≢◌, ◌↔◌, refl, true, false, List, [], ◌∷◌, ◌++◌, arith}
use openlive.Common.Text.{Text}
use openlive.Runtime.Lease.{accepts, new, begin_user_turn, issue, revoke}
use openlive.Runtime.Lease.History.{
  Call, begins, issues, revokes, MayAnswer, after, step, accepts_iff,
}
use openlive.Runtime.Lease.Names.{lease_ids-collide}

abbrev hash : ℕ → Text → ℕ
hash namespace name = namespace

-- A turn, a lease for generation 7, and the revocation of another generation.
abbrev one_turn : List Call
one_turn = revokes 8 ∷ issues 7 ∷ begins ∷ []

answers : accepts (after hash 1 one_turn) 7 ≡ true
unfolding accepts after step begin_user_turn issue revoke new
answers = refl

silenced : accepts (after hash 1 (begins ∷ one_turn)) 7 ≡ false
unfolding accepts after step begin_user_turn issue revoke new
silenced = refl

accepts_iff_example : (accepts (after hash 1 one_turn) 7 ≡ true) ↔ MayAnswer 7 one_turn
accepts_iff_example = accepts_iff hash 1 7 one_turn

-- A hash that makes one identifier of everything.
leases_collide :
    (issue hash (after hash 1 []) 7).1.lease_id
    ≡ (issue hash (after hash 1 (one_turn ++ issues 7 ∷ [])) 9).1.lease_id
unfolding after step begin_user_turn issue revoke new
leases_collide = refl

lease_ids-collide_example : (s t : Text) × (s ≢ t) × (hash 1 s ≡ hash 1 t)
lease_ids-collide_example = lease_ids-collide hash 1 7 9 [] one_turn (omega arith) leases_collide
