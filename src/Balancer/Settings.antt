-- ===== src/Balancer/Settings.antt =====
-- What the handlers of mongodb/resource_balancer_config.go rely on of a cluster, and what Create
-- writes to config.settings.
use terraform_provider_mongo.Prelude.{
  String, Bool, true, false, not, ◌&&◌, Option, none, some, List, [], ◌∷◌, ◌==◌, ◌≡◌, refl, sym, ap,
  ◌∙◌, subst, arith, pos, int_beq, contains, Result, ok, if◌then◌else◌, Bool-cases, inl, inr,
}
use terraform_provider_mongo.Prelude.Action.{
  World, ◌>>=◌, Action, checked, when, bind-ok, checked-ok,
}
use terraform_provider_mongo.Errors.{GoError}
use terraform_provider_mongo.Balancer.{
  Value, text, boolean, int32, document, Document, BalancerData, BalancerServer, BalancerError,
  not_a_mongos, not_switched, no_window, no_throttle, no_wait, no_chunk_size, balancer_id,
  chunk_size_id, set_balancer_window, set_balancer_field, set_chunk_size, write_balancer,
}

-- The settings that the resource manages.
pub data Setting : Type 0 where
  window throttle wait size : Setting

abbrev pub id_of : Setting → String
id_of size = chunk_size_id
id_of _ = balancer_id

abbrev pub name_of : Setting → String
name_of window = "activeWindow"
name_of throttle = "_secondaryThrottle"
name_of wait = "_waitForDelete"
name_of size = "value"

-- The settings after one of them is set.
abbrev pub put : Setting → Value → (Setting → Option Value) → Setting → Option Value
put k v old k' = if id_of k == id_of k' && name_of k == name_of k' then some v else old k'

-- A cluster with the settings that are stored and the balancer's mode. A command that succeeds does what
-- it says to the settings, and the others change none of them; switching the balancer keeps them.
pub record KeepsSettings {S : Type 0} (server : BalancerServer S)
    (stored : S → Setting → Option Value) (full : S → Bool) : Type 0 where
  pub mongos_keeps : (s : S) (k : Setting) → stored (server.not_mongos s).1 k ≡ stored s k
  pub switch_keeps : (b : Bool) (s : S) (k : Setting) → stored (server.switch b s).1 k ≡ stored s k
  pub switches : (b : Bool) (s : S) → (server.switch b s).0 ≡ none → full (server.switch b s).1 ≡ b
  pub sets :
      (k : Setting) (v : Value) (s : S) (k' : Setting)
      → (server.set_field (id_of k) (name_of k) v s).0 ≡ none
      → stored (server.set_field (id_of k) (name_of k) v s).1 k' ≡ put k v (stored s) k'
  pub set_full :
      (id name : String) (v : Value) (s : S) → full (server.set_field id name v s).1 ≡ full s
  pub unsets :
      (id : String) (names : List String) (s : S) (k : Setting)
      → (server.unset_fields id names s).0 ≡ none
      → stored (server.unset_fields id names s).1 k
        ≡ (if id == id_of k && contains names (name_of k) then none else stored s k)
  pub unset_full :
      (id : String) (names : List String) (s : S) → full (server.unset_fields id names s).1 ≡ full s
  pub deletes :
      (id : String) (s : S) (k : Setting)
      → (server.delete_document id s).0 ≡ none
      → stored (server.delete_document id s).1 k ≡ (if id == id_of k then none else stored s k)
  pub delete_full : (id : String) (s : S) → full (server.delete_document id s).1 ≡ full s
  pub shows_mode : (s : S) (m : String) → (server.mode s).0 ≡ ok m → (m == "full") ≡ full s
  pub mode_keeps : (s : S) (k : Setting) → stored (server.mode s).1 k ≡ stored s k
  pub found :
      (k : Setting) (s : S) (doc : Document)
      → (server.find_document (id_of k) s).0 ≡ ok (some doc)
      → doc (name_of k) ≡ stored s k
  pub missing :
      (k : Setting) (s : S) → (server.find_document (id_of k) s).0 ≡ ok none → stored s k ≡ none
  pub find_keeps :
      (id : String) (s : S) (k : Setting) → stored (server.find_document id s).1 k ≡ stored s k

-- The settings that a plan asks for, where the ones that are unset in the plan stay as they are, but
-- the window.
unfoldable pub wanted : BalancerData → (Setting → Option Value) → Setting → Option Value
wanted d old window =
    if not (d.window_start == "") && not (d.window_stop == "")
    then some (document (some d.window_start) (some d.window_stop))
    else none
wanted d old throttle =
    if not (d.secondary_throttle == "") then some (text d.secondary_throttle) else old throttle
wanted d old wait = if d.wait_for_delete then some (boolean true) else old wait
wanted d old size =
    if not (int_beq d.chunk_size (pos 0)) then some (int32 d.chunk_size) else old size

abbrev pub Stored : Type 0
Stored = Setting → Option Value

abbrev put_window : BalancerData → Stored → Stored
put_window d old k =
    if not (d.window_start == "") && not (d.window_stop == "")
    then put window (document (some d.window_start) (some d.window_stop)) old k
    else if balancer_id == id_of k && contains ("activeWindow" ∷ []) (name_of k)
    then none
    else old k

abbrev put_if : Bool → Setting → Value → Stored → Stored
put_if b k v old k' = if b then put k v old k' else old k'

-- The four updates in their order make what is wanted.
puts-wanted :
    (d : BalancerData) (o s3 s4 s5 s6 : Stored)
    → ((k : Setting) → s3 k ≡ put_window d o k)
    → ((k : Setting)
        → s4 k
          ≡ put_if (not (d.secondary_throttle == "")) throttle (text d.secondary_throttle) s3 k)
    → ((k : Setting) → s5 k ≡ put_if d.wait_for_delete wait (boolean true) s4 k)
    → ((k : Setting)
        → s6 k ≡ put_if (not (int_beq d.chunk_size (pos 0))) size (int32 d.chunk_size) s5 k)
    → (k : Setting) → s6 k ≡ wanted d o k
unfolding wanted
puts-wanted d o s3 s4 s5 s6 e3 e4 e5 e6 window =
    ground (arith, e3 window, e4 window, e5 window, e6 window)
puts-wanted d o s3 s4 s5 s6 e3 e4 e5 e6 throttle =
    ground (arith, e3 throttle, e4 throttle, e5 throttle, e6 throttle)
puts-wanted d o s3 s4 s5 s6 e3 e4 e5 e6 wait = ground (arith, e3 wait, e4 wait, e5 wait, e6 wait)
puts-wanted d o s3 s4 s5 s6 e3 e4 e5 e6 size = ground (arith, e3 size, e4 size, e5 size, e6 size)

wanted-same :
    (d : BalancerData) (o o' : Stored)
    → ((k : Setting) → o k ≡ o' k)
    → (k : Setting) → wanted d o k ≡ wanted d o' k
unfolding wanted
wanted-same d o o' e window = refl
wanted-same d o o' e throttle = ground (arith, e throttle)
wanted-same d o o' e wait = ground (arith, e wait)
wanted-same d o o' e size = ground (arith, e size)

module _ {S : Type 0} (server : BalancerServer S) (stored : S → Setting → Option Value)
    (full : S → Bool) (law : KeepsSettings server stored full) where
  abbrev Worlds : Type 0
  Worlds = World BalancerData S

  -- A setting that is set where a test holds.
  when-put :
      (b : Bool) (at : GoError → BalancerError) (k : Setting) (v : Value) (w : Worlds)
      (u : Unit {0})
      → let m = when b (checked at (server.set_field (id_of k) (name_of k) v)) in
        (m w).0 ≡ ok u
        → ((m w).1.resource ≡ w.resource)
          × (full (m w).1.server ≡ full w.server)
          × ((k' : Setting)
              → stored (m w).1.server k'
                ≡ (if b then put k v (stored w.server) k' else stored w.server k'))
  when-put false at k v w u e = (refl, refl, λ k'. refl)
  when-put true at k v w u e =
      let done = checked-ok at (server.set_field (id_of k) (name_of k) v) w u e in
      (refl, law.set_full (id_of k) (name_of k) v w.server, λ k'. law.sets k v w.server k' done)

  window-put :
      (start stop : String) (s : S)
      → (set_balancer_window server start stop s).0 ≡ none
      → (full (set_balancer_window server start stop s).1 ≡ full s)
        × ((k : Setting)
            → stored (set_balancer_window server start stop s).1 k ≡ (
                if not (start == "") && not (stop == "")
                then put window (document (some start) (some stop)) (stored s) k
                else if balancer_id == id_of k && contains ("activeWindow" ∷ []) (name_of k)
                then none
                else stored s k))
  unfolding set_balancer_window
  window-put start stop s e = elim (Bool-cases (not (start == "") && not (stop == ""))) [
    | inl b ↦
        let v = document (some start) (some stop) in
        let p : (server.set_field balancer_id "activeWindow" v s).0 ≡ none = ground (arith, e, b) in
        (
          ground (arith, b, law.set_full balancer_id "activeWindow" v s),
          λ k. ground (arith, b, law.sets window v s k p),
        )
    | inr b ↦
        let p : (server.unset_fields balancer_id ("activeWindow" ∷ []) s).0 ≡ none =
          ground (arith, e, b) in
        (
          ground (arith, b, law.unset_full balancer_id ("activeWindow" ∷ []) s),
          λ k. ground (arith, b, law.unsets balancer_id ("activeWindow" ∷ []) s k p),
        )
  ]

  -- The steps of Create from the setting of the window on.
  abbrev set_throttle : BalancerData → Action Worlds BalancerError (Unit {0})
  set_throttle d = when (not (d.secondary_throttle == "")) (
      checked no_throttle
        (set_balancer_field server "_secondaryThrottle" (text d.secondary_throttle)))

  abbrev set_wait : BalancerData → Action Worlds BalancerError (Unit {0})
  set_wait d =
      when d.wait_for_delete
        (checked no_wait (set_balancer_field server "_waitForDelete" (boolean true)))

  abbrev set_size : BalancerData → Action Worlds BalancerError (Unit {0})
  set_size d =
      when (not (int_beq d.chunk_size (pos 0)))
        (checked no_chunk_size (set_chunk_size server d.chunk_size))

  -- When its commands succeed, Create has stored what the plan asks for and changed nothing of the data.
  pub write_balancer-wanted :
      (d : BalancerData) (w : Worlds) (u : Unit {0})
      → (write_balancer server d w).0 ≡ ok u
      → let after = (write_balancer server d w).1 in
        (after.resource ≡ w.resource)
        × (full after.server ≡ d.enabled)
        × ((k : Setting) → stored after.server k ≡ wanted d (stored w.server) k)
  unfolding write_balancer wanted
  write_balancer-wanted d w u e =
      let m1 : Action Worlds BalancerError (Unit {0}) = checked not_a_mongos server.not_mongos in
      let m2 : Action Worlds BalancerError (Unit {0}) =
        checked not_switched (server.switch d.enabled) in
      let m3 : Action Worlds BalancerError (Unit {0}) =
        checked no_window (set_balancer_window server d.window_start d.window_stop) in
      let rest3 = set_throttle d >>= λ _. set_wait d >>= λ _. set_size d in
      let rest2 = m3 >>= λ _. rest3 in
      let (a1, p1, q1) = bind-ok m1 (λ _. m2 >>= λ _. rest2) w u e in
      let w1 = (m1 w).1 in
      let e1 = sym (ap (λ r. r.0) q1) ∙ e in
      let (a2, p2, q2) = bind-ok m2 (λ _. rest2) w1 u e1 in
      let w2 = (m2 w1).1 in
      let e2 = sym (ap (λ r. r.0) q2) ∙ e1 in
      let (a3, p3, q3) = bind-ok m3 (λ _. rest3) w2 u e2 in
      let w3 = (m3 w2).1 in
      let e3 = sym (ap (λ r. r.0) q3) ∙ e2 in
      let (a4, p4, q4) = bind-ok (set_throttle d) (λ _. set_wait d >>= λ _. set_size d) w3 u e3 in
      let w4 = (set_throttle d w3).1 in
      let e4 = sym (ap (λ r. r.0) q4) ∙ e3 in
      let (a5, p5, q5) = bind-ok (set_wait d) (λ _. set_size d) w4 u e4 in
      let w5 = (set_wait d w4).1 in
      let e5 = sym (ap (λ r. r.0) q5) ∙ e4 in
      let (r3, f3) =
        window-put d.window_start d.window_stop w2.server (
          checked-ok no_window (set_balancer_window server d.window_start d.window_stop) w2 a3
            p3) in
      let (g4, f4, k4) =
        when-put (not (d.secondary_throttle == "")) no_throttle throttle (text d.secondary_throttle)
          w3 a4 p4 in
      let (g5, f5, k5) = when-put d.wait_for_delete no_wait wait (boolean true) w4 a5 p5 in
      let (g6, f6, k6) =
        when-put (not (int_beq d.chunk_size (pos 0))) no_chunk_size size (int32 d.chunk_size) w5 u
          e5 in
      let P : Result BalancerError (Unit {0}) × Worlds → Type 0 = λ r.
        (r.1.resource ≡ w.resource)
        × (full r.1.server ≡ d.enabled)
        × ((k : Setting) → stored r.1.server k ≡ wanted d (stored w.server) k) in
      subst P (sym (q1 ∙ q2 ∙ q3 ∙ q4 ∙ q5)) (
        g6 ∙ g5 ∙ g4,
        f6
            ∙ f5
            ∙ f4
            ∙ r3
            ∙ law.switches d.enabled w1.server
                (checked-ok not_switched (server.switch d.enabled) w1 a2 p2),
        λ k.
            puts-wanted d (stored w2.server) (stored w3.server) (stored w4.server)
              (stored w5.server) (stored (set_size d w5).1.server) f3 k4 k5 k6 k
            ∙ wanted-same d (stored w2.server) (stored w.server)
                (λ k'. law.switch_keeps d.enabled w1.server k' ∙ law.mongos_keeps w.server k') k,
      )
