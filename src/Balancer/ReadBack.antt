-- ===== src/Balancer/ReadBack.antt =====
-- What the resource's data is after Create and after Delete (mongodb/resource_balancer_config.go).
use terraform_provider_mongo.Prelude.{
  String, Bool, true, false, Option, none, some, ◌==◌, ◌≡◌, refl, sym, ap, ◌∙◌, subst, arith, ℤ,
  pos, int_beq, ok, Bool-cases, Result-cases, inl, inr, eq_iff,
}
use terraform_provider_mongo.Prelude.Action.{World}
use terraform_provider_mongo.Balancer.{
  Value, boolean, int32, document, Document, BalancerData, BalancerServer, balancer_id,
  chunk_size_id, half_window, value_text, read_balancer_document, read_chunk_size, read_balancer,
}
use terraform_provider_mongo.Balancer.Settings.{
  Setting, window, throttle, wait, size, Stored, KeepsSettings, wanted, id_of,
}

module _ {S : Type 0} (server : BalancerServer S) where
  -- What Read makes of the window and the throttle that are stored.
  abbrev ShowsTexts : Stored → BalancerData → BalancerData → Type 0
  ShowsTexts o d d' =
      ((a b : String)
        → o window ≡ some (document (some a) (some b))
        → (d'.window_start ≡ a) × (d'.window_stop ≡ b))
      × (o window ≡ none
          → d.window_start ≡ ""
          → d.window_stop ≡ ""
          → (d'.window_start ≡ "") × (d'.window_stop ≡ ""))
      × ((v : Value) → o throttle ≡ some v → d'.secondary_throttle ≡ value_text server v)
      × (o throttle ≡ none → d.secondary_throttle ≡ "" → d'.secondary_throttle ≡ "")

  -- And of the other two settings.
  abbrev ShowsWait : Stored → BalancerData → BalancerData → Type 0
  ShowsWait o d d' =
      ((b : Bool) → o wait ≡ some (boolean b) → d'.wait_for_delete ≡ b)
      × (o wait ≡ none → d'.wait_for_delete ≡ d.wait_for_delete)

  abbrev ShowsSize : Stored → BalancerData → BalancerData → Type 0
  ShowsSize o d d' =
      (((n : ℤ) → o size ≡ some (int32 n) → d'.chunk_size ≡ n))
      × (o size ≡ none → d'.chunk_size ≡ d.chunk_size)

  shows_missing :
      (o : Stored) (d : BalancerData)
      → ((k : Setting) → id_of k ≡ balancer_id → o k ≡ none)
      → let d' = read_balancer_document server none d in ShowsTexts o d d' × ShowsWait o d d'
  unfolding read_balancer_document
  shows_missing o d m = (
    (
      λ a b e. absurd (ground (arith, e, m window refl)),
      λ e p q. (p, q),
      λ v e. absurd (ground (arith, e, m throttle refl)),
      λ e p. p,
    ),
    (λ b e. absurd (ground (arith, e, m wait refl)), λ e. refl),
  )

  shows_found :
      (o : Stored) (doc : Document) (d : BalancerData)
      → doc "activeWindow" ≡ o window
      → doc "_secondaryThrottle" ≡ o throttle
      → doc "_waitForDelete" ≡ o wait
      → let d' = read_balancer_document server (some doc) d in ShowsTexts o d d' × ShowsWait o d d'
  unfolding read_balancer_document
  shows_found o doc d e1 e2 e3 = (
    (
      λ a b e. ground (arith, e, e1, e2, e3),
      λ e p q. ground (arith, e, e1, e2, e3),
      λ v e. ground (arith, e, e1, e2, e3),
      λ e p. ground (arith, e, e1, e2, e3),
    ),
    (λ b e. ground (arith, e, e1, e2, e3), λ e. ground (arith, e, e1, e2, e3)),
  )

  shows_size :
      (o : Stored) (doc : Option Document) (d : BalancerData)
      → ((x : Document) → doc ≡ some x → x "value" ≡ o size)
      → (doc ≡ none → o size ≡ none)
      → let d' = read_chunk_size server doc d in ShowsSize o d d'
  unfolding read_chunk_size
  shows_size o none d f m = (λ n e. absurd (ground (arith, e, m refl)), λ e. refl)
  shows_size o (some x) d f m =
      let same = f x refl in (λ n e. ground (arith, e, same), λ e. ground (arith, e, same))

  module _ (stored : S → Stored) (full : S → Bool) (law : KeepsSettings server stored full) where
    -- What Read records of the settings and the mode.
    abbrev pub Reads : World BalancerData S → BalancerData → Type 0
    Reads w d' =
        let o = stored w.server in
        let d = w.resource in
        (d'.id ≡ d.id)
        × (d'.enabled ≡ full w.server)
        × ShowsTexts o d d'
        × ShowsWait o d d'
        × ShowsSize o d d'

    balancer_missing :
        (s : S)
        → (server.find_document balancer_id s).0 ≡ ok none
        → (k : Setting) → id_of k ≡ balancer_id
        → stored s k ≡ none
    balancer_missing s e window p = law.missing window s e
    balancer_missing s e throttle p = law.missing throttle s e
    balancer_missing s e wait p = law.missing wait s e
    balancer_missing s e size p = absurd (ground (arith, eq_iff chunk_size_id balancer_id, p))

    balancer_document :
        (s : S) (found : Option Document) (d : BalancerData)
        → (server.find_document balancer_id s).0 ≡ ok found
        → let d' = read_balancer_document server found d in
          ShowsTexts (stored s) d d' × ShowsWait (stored s) d d'
    balancer_document s none d e = shows_missing (stored s) d (balancer_missing s e)
    balancer_document s (some doc) d e =
        shows_found (stored s) doc d (law.found window s doc e) (law.found throttle s doc e)
          (law.found wait s doc e)

    chunk_size_document :
        (s : S) (found : Option Document) (d : BalancerData)
        → (server.find_document chunk_size_id s).0 ≡ ok found
        → ShowsSize (stored s) d (read_chunk_size server found d)
    chunk_size_document s found d e =
        shows_size (stored s) found d (λ x q. law.found size s x (e ∙ ap ok q))
          (λ q. law.missing size s (e ∙ ap ok q))

    abbrev with_mode : BalancerData → String → BalancerData
    with_mode d mode = record d { enabled = mode == "full" }

    -- Read is the three answers, taken over one after the other.
    read_balancer-answers :
        (w : World BalancerData S) (u : Unit {0})
        → (read_balancer server w).0 ≡ ok u
        → let s1 = (server.mode w.server).1 in
          let s2 = (server.find_document balancer_id s1).1 in
          (mode : String) × (doc sized : Option Document) × ((server.mode w.server).0 ≡ ok mode)
          × ((server.find_document balancer_id s1).0 ≡ ok doc)
          × ((server.find_document chunk_size_id s2).0 ≡ ok sized)
          × ((read_balancer server w).1.resource
              ≡ read_chunk_size server sized
                  (read_balancer_document server doc (with_mode w.resource mode)))
    unfolding read_balancer
    read_balancer-answers w u e =
        let s1 = (server.mode w.server).1 in
        let s2 = (server.find_document balancer_id s1).1 in
        elim (Result-cases (server.mode w.server).0) [
          | inl (x, p) ↦ absurd (ground (arith, e, p))
          | inr (mode, p) ↦ elim (Result-cases (server.find_document balancer_id s1).0) [
            | inl (x, q) ↦ absurd (ground (arith, e, p, q))
            | inr (doc, q) ↦ elim (Result-cases (server.find_document chunk_size_id s2).0) [
              | inl (x, r) ↦ absurd (ground (arith, e, p, q, r))
              | inr (sized, r) ↦ (mode, doc, sized, p, q, r, ground (arith, p, q, r))
            ]
          ]
        ]

    document_keeps :
        (doc : Option Document) (d : BalancerData)
        → let d' = read_balancer_document server doc d in
          (d'.id ≡ d.id) × (d'.enabled ≡ d.enabled) × (d'.chunk_size ≡ d.chunk_size)
    unfolding read_balancer_document
    document_keeps doc d = ground arith

    chunk_size_keeps :
        (doc : Option Document) (d : BalancerData)
        → let d' = read_chunk_size server doc d in
          (d'.id ≡ d.id)
          × (d'.enabled ≡ d.enabled)
          × (d'.window_start ≡ d.window_start)
          × (d'.window_stop ≡ d.window_stop)
          × (d'.secondary_throttle ≡ d.secondary_throttle)
          × (d'.wait_for_delete ≡ d.wait_for_delete)
    unfolding read_chunk_size
    chunk_size_keeps doc d = ground arith

    pub read_balancer-Reads :
        (w : World BalancerData S) (u : Unit {0})
        → (read_balancer server w).0 ≡ ok u
        → Reads w (read_balancer server w).1.resource
    read_balancer-Reads w u e =
        let (mode, doc, sized, p, q, r, same) = read_balancer-answers w u e in
        let s1 = (server.mode w.server).1 in
        let s2 = (server.find_document balancer_id s1).1 in
        let d1 = with_mode w.resource mode in
        let d2 = read_balancer_document server doc d1 in
        let ((set_window, no_window, set_throttle, no_throttle), (set_wait, no_wait)) =
          balancer_document s1 doc d1 q in
        let (set_size, no_size) = chunk_size_document s2 sized d2 r in
        let (id2, enabled2, size2) = document_keeps doc d1 in
        let (id3, enabled3, start3, stop3, throttle3, wait3) = chunk_size_keeps sized d2 in
        let at : (k : Setting) → stored s1 k ≡ stored w.server k = law.mode_keeps w.server in
        let at2 : (k : Setting) → stored s2 k ≡ stored w.server k =
          λ k. law.find_keeps balancer_id s1 k ∙ at k in
        subst (Reads w) (sym same) (
          id3 ∙ id2,
          enabled3 ∙ enabled2 ∙ law.shows_mode w.server mode p,
          (
            λ a b x. let (t, t') = set_window a b (at window ∙ x) in (start3 ∙ t, stop3 ∙ t'),
            λ x y z. let (t, t') = no_window (at window ∙ x) y z in (start3 ∙ t, stop3 ∙ t'),
            λ v x. throttle3 ∙ set_throttle v (at throttle ∙ x),
            λ x y. throttle3 ∙ no_throttle (at throttle ∙ x) y,
          ),
          (λ b x. wait3 ∙ set_wait b (at wait ∙ x), λ x. wait3 ∙ no_wait (at wait ∙ x)),
          (λ n x. set_size n (at2 size ∙ x), λ x. no_size (at2 size ∙ x) ∙ size2),
        )

    -- What Create leaves in the data for a setting: what the plan has, and, where the plan leaves it
    -- unset, what was stored before.
    abbrev pub Reconfigured : World BalancerData S → BalancerData → Type 0
    Reconfigured w d' =
        let o = stored w.server in
        let d = w.resource in
        (d'.id ≡ balancer_id)
        × (d'.enabled ≡ d.enabled)
        × (d'.window_start ≡ d.window_start)
        × (d'.window_stop ≡ d.window_stop)
        × ((d.secondary_throttle == "") ≡ false → d'.secondary_throttle ≡ d.secondary_throttle)
        × ((d.secondary_throttle == "") ≡ true
            → (v : Value) → o throttle ≡ some v
            → d'.secondary_throttle ≡ value_text server v)
        × (d.wait_for_delete ≡ true → d'.wait_for_delete ≡ true)
        × (d.wait_for_delete ≡ false
            → (b : Bool) → o wait ≡ some (boolean b)
            → d'.wait_for_delete ≡ b)
        × (int_beq d.chunk_size (pos 0) ≡ false → d'.chunk_size ≡ d.chunk_size)
        × (int_beq d.chunk_size (pos 0) ≡ true
            → (n : ℤ) → o size ≡ some (int32 n)
            → d'.chunk_size ≡ n)

    -- The reading after the writing.
    pub read_wanted :
        (d d' : BalancerData) (o o' : Stored)
        → half_window d.window_start d.window_stop ≡ false
        → ((k : Setting) → o' k ≡ wanted d o k)
        → ShowsTexts o' d d'
        → (d'.window_start ≡ d.window_start) × (d'.window_stop ≡ d.window_stop)
    unfolding wanted half_window
    read_wanted d d' o o' h e (set_window, no_window, _, _) =
        elim (Bool-cases (d.window_start == "")) [
          | inl p ↦
              let start = (eq_iff d.window_start "").0 p in
              let stop : (d.window_stop == "") ≡ true = ground (arith, h, p) in
              let stopped = (eq_iff d.window_stop "").0 stop in
              let (a, b) = no_window (ground (arith, e window, p)) start stopped in
              (a ∙ sym start, b ∙ sym stopped)
          | inr p ↦ set_window d.window_start d.window_stop (ground (arith, e window, p, h))
        ]
