-- ===== src/Balancer/Tests.antt =====
-- A cluster whose settings are a function, and the theorems of mongodb/resource_balancer_config.go at it.
use terraform_provider_mongo.Prelude.{
  String, Bool, true, false, ◌&&◌, Option, none, some, ◌==◌, ◌≡◌, ◌↔◌, refl, pos, contains, ok,
  if◌then◌else◌,
}
use terraform_provider_mongo.Prelude.Action.{World}
use terraform_provider_mongo.Balancer.{
  Value, boolean, BalancerData, BalancerServer, validate_hhmm, set_balancer_window,
  read_balancer_document, read_chunk_size, read_balancer, write_balancer, create_balancer,
  delete_balancer,
}
use terraform_provider_mongo.Balancer.Settings.{Stored, id_of, name_of}
use terraform_provider_mongo.Balancer.Clock.{IsTime, validate_hhmm_iff}

record Cluster : Type 0 where
  pub is_full : Bool
  pub fields : String → String → Option Value

abbrev test_balancer : BalancerServer Cluster
test_balancer = record {
  not_mongos = λ s. (none, s);
  switch = λ b s. (none, record s { is_full = b });
  mode = λ s. (ok (if s.is_full then "full" else "off"), s);
  set_field = λ id name v s.
      (none, record s { fields = λ i n. if id == i && name == n then some v else s.fields i n });
  unset_fields = λ id names s. (
    none,
    record s { fields = λ i n. if id == i && contains names n then none else s.fields i n },
  );
  delete_document =
      λ id s. (none, record s { fields = λ i n. if id == i then none else s.fields i n });
  find_document = λ id s. (ok (some (s.fields id)), s);
  other_text = λ v. "";
}

abbrev stored : Cluster → Stored
stored s k = s.fields (id_of k) (name_of k)

abbrev full : Cluster → Bool
full s = s.is_full

-- The cluster waits for deletes, which the plan turns off.
abbrev planned : World BalancerData Cluster
planned = record {
  resource = record {
    id = "";
    enabled = true;
    window_start = "01:00";
    window_stop = "05:30";
    chunk_size = pos 64;
    secondary_throttle = "majority";
    wait_for_delete = false;
  };
  server = record {
    is_full = false;
    fields = λ i n. if n == "_waitForDelete" then some (boolean true) else none;
  };
}

-- A plan that turns wait_for_delete off reads it back as on.
wait_stays_on : (create_balancer test_balancer planned).1.resource.wait_for_delete ≡ true
unfolding create_balancer write_balancer read_balancer read_balancer_document read_chunk_size
    set_balancer_window
wait_stays_on = refl

delete_runs : (delete_balancer test_balancer planned).0 ≡ ok tt
unfolding delete_balancer
delete_runs = refl

validate_hhmm_iff_example : (validate_hhmm "23:59" ≡ true) ↔ IsTime "23:59"
validate_hhmm_iff_example = validate_hhmm_iff "23:59"

accepts_last_minute : validate_hhmm "23:59" ≡ true
unfolding validate_hhmm
accepts_last_minute = refl

refuses_midnight_as_24 : validate_hhmm "24:00" ≡ false
unfolding validate_hhmm
refuses_midnight_as_24 = refl
