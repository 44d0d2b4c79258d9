-- ===== src/Shard/HostSet.antt =====
-- sameHostSet (mongodb/resource_shard.go) compares lists of hosts as bags.
use mathlib.Core.Quot
use mathlib.Core.Quot.{Quot, Quot-set}
use terraform_provider_mongo.Prelude.{
  ℕ, ◌+◌, ◌-◌, ◌≤◌, String, true, false, List, [], ◌∷◌, ◌==◌, ◌≡◌, ◌↔◌, refl, ap, arith, eq_iff,
  eq_refl, length, if◌then◌else◌,
}
use terraform_provider_mongo.Shard.{count, within_counts, same_host_set, block_host_set_change}

within_counts_iff :
    (c : String → ℕ) (b : List String)
    → (within_counts c b ≡ true) ↔ ((h : String) → count b h ≤ c h)
unfolding within_counts
within_counts_iff c [] = (λ e h. omega arith, λ a. refl)
within_counts_iff c (x ∷ b) =
    let ih = within_counts_iff (λ k. if x == k then c k - 1 else c k) b in
    (
      λ e h. ground (arith, ih.0 (ground arith) h, eq_iff x h),
      λ a. ground (arith, a x, eq_refl x, ih.1 (λ h. ground (arith, a h, a x, eq_iff x h))),
    )

-- The list without the first of an element.
abbrev remove : String → List String → List String
remove x [] = []
remove x (y ∷ ys) = if y == x then ys else y ∷ remove x ys

length-remove : (x : String) (a : List String) → 1 ≤ count a x → length (remove x a) + 1 ≡ length a
length-remove x [] h = absurd (omega arith)
length-remove x (y ∷ a) h = ground (arith, length-remove x a)

count-remove :
    (x : String) (a : List String) (h : String)
    → 1 ≤ count a x
    → count (remove x a) h + (if x == h then 1 else 0) ≡ count a h
count-remove x [] h p = absurd (omega arith)
count-remove x (y ∷ a) h p = ground (arith, count-remove x a h, eq_iff y x, eq_iff x h, eq_iff y h)

-- Of two lists of one length, neither counts more than the other everywhere.
as_often :
    (a b : List String)
    → length a ≡ length b
    → ((h : String) → count b h ≤ count a h)
    → (h : String) → count a h ≡ count b h
as_often [] [] l p h = refl
as_often (x ∷ a) [] l p h = absurd (omega (arith, l))
as_often a (x ∷ b) l p h =
    let here : 1 ≤ count a x = ground (arith, p x, eq_refl x) in
    ground (
      arith,
      count-remove x a h here,
      as_often (remove x a) b (omega (arith, l, length-remove x a here))
          (λ k. ground (arith, p k, count-remove x a k here)) h,
    )

abbrev pub SameHosts : List String → List String → Type 0
SameHosts a b = (h : String) → count a h ≡ count b h

-- Lists of hosts up to their order.
abbrev pub HostBag : Type 0
HostBag = Quot SameHosts

times : String → HostBag → ℕ
times h = Quot.lift (hlevel) (λ a. count a h) λ a b e. e h

length-SameHosts : (a b : List String) → SameHosts a b → length a ≡ length b
length-SameHosts [] [] e = refl
length-SameHosts [] (x ∷ b) e = absurd (ground (arith, e x, eq_refl x))
length-SameHosts (x ∷ a) b e =
    let here : 1 ≤ count b x = ground (arith, e x, eq_refl x) in
    omega (
      arith,
      length-remove x b here,
      length-SameHosts a (remove x b) (λ h. ground (arith, e h, count-remove x b h here)),
    )

same_host_set_iff : (a b : List String) → (same_host_set a b ≡ true) ↔ SameHosts a b
unfolding same_host_set
same_host_set_iff a b =
    let inside = within_counts_iff (count a) b in
    (
      λ e. as_often a b (ground arith) (inside.0 (ground arith)),
      λ s. ground (arith, length-SameHosts a b s, inside.1 (λ h. omega (arith, s h))),
    )

-- On a resource that exists, the plan is let through exactly when the old hosts and the new ones are
-- the same bag: the same hosts, each as often, in any order.
pub block_host_set_change_iff :
    (id : String) (old new : List String)
    → (id == "") ≡ false
    → (block_host_set_change id old new ≡ false) ↔ (◌≡◌ {A = HostBag} (Quot.mk old) (Quot.mk new))
unfolding block_host_set_change times
block_host_set_change_iff id old new e =
    let same = same_host_set_iff old new in
    (λ b. Quot.sound (same.0 (ground arith)), λ q. ground (arith, e, same.1 (λ h. ap (times h) q)))
