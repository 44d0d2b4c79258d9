-- ===== src/ServerParameter.antt =====
-- mongodb/resource_server_parameter.go: the resource that sets a parameter of the server. The commands,
-- the reading of a float are parameters; opening the client is left out, and
-- writes to the resource's data do not fail.
mod Tests
use terraform_provider_mongo.Prelude.{
  ◌≢◌, eq_iff, subst, String, Bool, true, false, Option, none, some, ◌==◌, ℤ, Float64, ◌≡◌, refl,
  sym, ap, ◌∙◌, arith, pair_eq, Result, ok, err, if◌then◌else◌, Result-cases, Option-cases,
  Bool-cases, inl, inr,
}
use terraform_provider_mongo.Prelude.Action.{
  Action, World, ◌>>=◌, ◌>>◌, pure, raise, get, set, checked, asked,
}
use terraform_provider_mongo.Errors.{GoError}
use terraform_provider_mongo.Discovery.HostPort.{has_char}
use terraform_provider_mongo.Ids.{
  IdError, format_resource_id, parse_resource_id, parse_resource_id-format,
}
use terraform_provider_mongo.Fcv.{atoi}

-- The value of setParameter.
pub data ParameterValue : Type 0 where
  boolean : Bool → ParameterValue
  integer : ℤ → ParameterValue
  float : Float64 → ParameterValue
  text : String → ParameterValue

pub record ParameterData : Type 0 where
  pub id : String
  pub parameter : String
  pub value : String
  pub ignore_read : Bool

-- `show_parameter` gives the text, with "%v", of the value that the reply has for the parameter, if it has
-- one; `parse_float` is strconv.ParseFloat.
pub record ParameterServer (S : Type 0) : Type 0 where
  pub set_parameter : String → ParameterValue → S → Option GoError × S
  pub show_parameter : String → S → Result GoError (Option String) × S
  pub parse_float : String → Option Float64

pub data ParameterError : Type 0 where
  not_set not_read : GoError → ParameterError
  not_found : String → ParameterError
  bad_id : IdError → ParameterError

module _ {S : Type 0} (server : ParameterServer S) where
  -- coerceParameterValue; strconv.ParseInt with base 10 and 64 bits accepts what strconv.Atoi does.
  unfoldable pub coerce_parameter_value : String → ParameterValue
  coerce_parameter_value s =
      if s == "true" then boolean true else if s == "false" then boolean false else elim (atoi s) [
        | some n ↦ integer n
        | none ↦ elim (server.parse_float s) [ some x ↦ float x | none ↦ text s ]
      ]

  abbrev pub Handler : Type 0
  Handler = Action (World ParameterData S) ParameterError (Unit {0})

  abbrev take_value : String → Option String → Handler
  take_value parameter none = raise (not_found parameter)
  take_value parameter (some v) = set (λ d. record d { value = v; parameter = parameter })

  -- The part of Read after the id.
  abbrev read_named : String → Handler
  read_named parameter = do
    v ← asked not_read (server.show_parameter parameter)
    take_value parameter v

  -- resourceServerParameterRead
  unfoldable pub read_parameter : Handler
  read_parameter = do
    d ← get
    elim (parse_resource_id d.id) [
      | err e ↦ raise (bad_id e)
      | ok (parameter, _) ↦ if d.ignore_read then pure tt else read_named parameter
    ]

  -- resourceServerParameterCreate, which is resourceServerParameterUpdate too.
  unfoldable pub create_parameter : Handler
  create_parameter = do
    d ← get
    checked not_set (server.set_parameter d.parameter (coerce_parameter_value d.value))
    set (λ d. record d { id = format_resource_id "admin" d.parameter })
    read_parameter

-- resourceServerParameterDelete
unfoldable pub delete_parameter : ParameterData → ParameterData
delete_parameter d = record d { id = "" }

-- The value that a text stands for: a boolean, a number where strconv reads one, an integer first, and
-- else the text itself.
pub data StandsFor {S : Type 0} (server : ParameterServer S)
    : String → ParameterValue → Type 0 where
  yes : StandsFor server "true" (boolean true)
  no : StandsFor server "false" (boolean false)
  whole : {s : String} {n : ℤ} → atoi s ≡ some n → StandsFor server s (integer n)
  fraction :
      {s : String} {x : Float64}
      → atoi s ≡ none
      → server.parse_float s ≡ some x
      → s ≢ "true"
      → s ≢ "false"
      → StandsFor server s (float x)
  itself :
      {s : String}
      → atoi s ≡ none
      → server.parse_float s ≡ none
      → s ≢ "true"
      → s ≢ "false"
      → StandsFor server s (text s)

coerce-StandsFor :
    {S : Type 0} (server : ParameterServer S) (s : String)
    → StandsFor server s (coerce_parameter_value server s)
unfolding coerce_parameter_value
coerce-StandsFor server s = elim (Bool-cases (s == "true")) [
  | inl t ↦
      let same : "true" ≡ s = sym ((eq_iff s "true").0 t) in
      subst (λ x. StandsFor server x (coerce_parameter_value server x)) same yes
  | inr t ↦ elim (Bool-cases (s == "false")) [
    | inl f ↦
        let same : "false" ≡ s = sym ((eq_iff s "false").0 f) in
        subst (λ x. StandsFor server x (coerce_parameter_value server x)) same no
    | inr f ↦
        let not_true : s ≢ "true" = λ e. absurd (ground (arith, t, (eq_iff s "true").1 e)) in
        let not_false : s ≢ "false" = λ e. absurd (ground (arith, f, (eq_iff s "false").1 e)) in
        elim (Option-cases (atoi s)) [
          | inr (n, a) ↦ subst (StandsFor server s) (ground (arith, t, f, a)) (whole a)
          | inl a ↦ elim (Option-cases (server.parse_float s)) [
            | inr (x, b) ↦
                subst (StandsFor server s) (ground (arith, t, f, a, b))
                  (fraction a b not_true not_false)
            | inl b ↦
                subst (StandsFor server s) (ground (arith, t, f, a, b))
                  (itself a b not_true not_false)
          ]
        ]
  ]
]

no_dot : has_char b'.' "admin" ≡ false
unfolding has_char
no_dot = refl

-- Create and Update of a parameter whose name is not empty, where they succeed, have set the parameter to
-- the boolean, the number or the text that the planned text stands for, and leave the parameter's id in the data. Where the read is not ignored, the server
-- is asked for the parameter after that, and the data's value is the text it shows, in whatever format;
-- else nothing more is asked, and the value stays as planned.
pub create_parameter_lem :
    {S : Type 0} (server : ParameterServer S) (w : World ParameterData S)
    → (w.resource.parameter == "") ≡ false
    → (create_parameter server w).0 ≡ ok tt
    → let d = w.resource in
      let r = (create_parameter server w).1 in
      let named = record d { id = format_resource_id "admin" d.parameter } in
      (v : ParameterValue) × (s1 : S) × StandsFor server d.value v
      × (server.set_parameter d.parameter v w.server ≡ (none, s1))
      × (d.ignore_read ≡ true → r ≡ record { resource = named; server = s1 })
      × (d.ignore_read ≡ false
          → (t : String) × (server.show_parameter d.parameter s1 ≡ (ok (some t), r.server))
            × (r.resource ≡ record named { value = t }))
unfolding create_parameter read_parameter
create_parameter_lem server w n e =
    let d = w.resource in
    let set_run =
      server.set_parameter d.parameter (coerce_parameter_value server d.value) w.server in
    let s1 = set_run.1 in
    let named = parse_resource_id-format "admin" d.parameter refl n no_dot in
    elim (Option-cases set_run.0) [
      | inr (x, p) ↦ absurd (ground (arith, e, p))
      | inl p ↦ (
        coerce_parameter_value server d.value,
        s1,
        coerce-StandsFor server d.value,
        pair_eq set_run none p,
        λ i. ground (arith, p, named, i),
        λ i. elim (Result-cases (server.show_parameter d.parameter s1).0) [
          | inl (x, q) ↦ absurd (ground (arith, e, p, q, named, i))
          | inr (none, q) ↦ absurd (ground (arith, e, p, q, named, i))
          | inr (some t, q) ↦ (
            t,
            pair_eq (server.show_parameter d.parameter s1) (ok (some t)) q
                ∙ ap (λ z. (ok (some t), z)) (ground (arith, p, q, named, i)),
            ground (arith, p, q, named, i),
          )
        ],
      )
    ]
