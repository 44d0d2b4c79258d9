-- ===== src/Discovery/HostPort.antt =====
-- Round trips of SplitHostPort and ParseShardHost (mongodb/shard_discovery.go).
use Prim.Native.Char.{Char, code}
use terraform_provider_mongo.Prelude.{
  ℕ, String, Bool, true, false, none, some, List, [], ◌∷◌, ◌||◌, ◌==◌, ◌≡◌, refl, ◌∙◌, ap, arith,
  nat_beq, ==_false_of_ne, All, ok,
}
use terraform_provider_mongo.Discovery.{
  split_first, split_last, split_all, slash, colon, comma, parse_shard_host, split_host_port,
}

-- The text `a + sep + b`.
unfoldable pub joined : Char → String → String → String
joined sep String.[] b = String.◌∷◌ sep b
joined sep (String.◌∷◌ c a) b = String.◌∷◌ c (joined sep a b)

-- The text has the character.
unfoldable pub has_char : ℕ → String → Bool
has_char sep String.[] = false
has_char sep (String.◌∷◌ c s) = nat_beq (code c) sep || has_char sep s

nat_beq_refl : (n : ℕ) → nat_beq n n ≡ true
nat_beq_refl n = ground arith

pub split_first-joined :
    (sep : Char) (a b : String)
    → has_char (code sep) a ≡ false
    → split_first (code sep) (joined sep a b) ≡ some (a, b)
unfolding split_first joined has_char
split_first-joined sep String.[] b h = simp (nat_beq_refl (code sep)) refl
split_first-joined sep (String.◌∷◌ c a) b h = ground (arith, split_first-joined sep a b)

split_last-none : (sep : ℕ) (b : String) → has_char sep b ≡ false → split_last sep b ≡ none
unfolding split_last has_char
split_last-none sep String.[] h = refl
split_last-none sep (String.◌∷◌ c b) h = ground (arith, split_last-none sep b)

split_last-joined :
    (sep : Char) (a b : String)
    → has_char (code sep) b ≡ false
    → split_last (code sep) (joined sep a b) ≡ some (a, b)
unfolding split_last joined
split_last-joined sep String.[] b h =
    simp (split_last-none (code sep) b h, nat_beq_refl (code sep)) refl
split_last-joined sep (String.◌∷◌ c a) b h = rw (split_last-joined sep a b h) refl

cons-nonempty : (c : Char) (s : String) → (String.◌∷◌ c s == "") ≡ false
cons-nonempty c s = ==_false_of_ne (String.◌∷◌ c s) "" (λ e. absurd (cc))

joined-nonempty : (sep : Char) (a b : String) → (joined sep a b == "") ≡ false
unfolding joined
joined-nonempty sep String.[] b = cons-nonempty sep b
joined-nonempty sep (String.◌∷◌ c a) b = cons-nonempty c (joined sep a b)

-- SplitHostPort gives back the host and the port of "host:port", for a host that is not empty and may
-- have colons of its own, as an IPv6 address, and a port that is not empty and has none.
pub split_host_port-joined :
    (host port : String)
    → (host == "") ≡ false
    → (port == "") ≡ false
    → has_char colon port ≡ false
    → split_host_port (joined ":" host port) ≡ ok (host, port)
unfolding split_host_port
split_host_port-joined host port h p c =
    simp (joined-nonempty ":" host port, split_last-joined ":" host port c, h, p) refl

split_all-one : (sep : ℕ) (a : String) → has_char sep a ≡ false → split_all sep a ≡ a ∷ []
unfolding split_all has_char
split_all-one sep String.[] h = refl
split_all-one sep (String.◌∷◌ c a) h = ground (arith, split_all-one sep a)

split_all-cons :
    (sep : Char) (a b : String)
    → has_char (code sep) a ≡ false
    → split_all (code sep) (joined sep a b) ≡ a ∷ split_all (code sep) b
unfolding split_all joined has_char
split_all-cons sep String.[] b h = simp (nat_beq_refl (code sep)) refl
split_all-cons sep (String.◌∷◌ c a) b h = ground (arith, split_all-cons sep a b)

-- The texts with the character between them.
unfoldable pub join_with : Char → String → List String → String
join_with sep a [] = a
join_with sep a (b ∷ bs) = joined sep a (join_with sep b bs)

-- No text of the list has the character.
abbrev pub NoneHas : ℕ → List String → Type 0
NoneHas sep = All (λ a. has_char sep a ≡ false)

pub split_all-join :
    (sep : Char) (a : String) (bs : List String)
    → has_char (code sep) a ≡ false
    → NoneHas (code sep) bs
    → split_all (code sep) (join_with sep a bs) ≡ a ∷ bs
unfolding join_with
split_all-join sep a [] h n = split_all-one (code sep) a h
split_all-join sep a (b ∷ bs) h (m, n) =
    split_all-cons sep a (join_with sep b bs) h ∙ ap (λ r. a ∷ r) (split_all-join sep b bs m n)

-- ParseShardHost gives back the set and the hosts of "set/host,host,...", for a set name that is not
-- empty and has no slash, and hosts without commas that do not make up the empty text.
pub parse_shard_host-joined :
    (set host : String) (hosts : List String)
    → (set == "") ≡ false
    → has_char slash set ≡ false
    → (join_with "," host hosts == "") ≡ false
    → has_char comma host ≡ false
    → NoneHas comma hosts
    → parse_shard_host (joined "/" set (join_with "," host hosts)) ≡ ok (set, host ∷ hosts)
unfolding parse_shard_host
parse_shard_host-joined set host hosts e s n h hs = ground (
  arith,
  split_first-joined "/" set (join_with "," host hosts) s,
  e,
  n,
  split_all-join "," host hosts h hs,
)
