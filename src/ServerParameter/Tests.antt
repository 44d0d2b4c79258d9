-- ===== src/ServerParameter/Tests.antt =====
-- A server with the value of one parameter, and the theorem of mongodb/resource_server_parameter.go at it.
use terraform_provider_mongo.Prelude.{String, true, false, none, some, pos, ◌≡◌, refl, ok}
use terraform_provider_mongo.Prelude.Action.{World}
use terraform_provider_mongo.Discovery.{split_first}
use terraform_provider_mongo.Discovery.HostPort.{joined}
use terraform_provider_mongo.Ids.{format_resource_id, parse_resource_id}
use terraform_provider_mongo.Fcv.{atoi}
use terraform_provider_mongo.ServerParameter.{
  ParameterValue, boolean, integer, float, text, ParameterData, ParameterServer, StandsFor,
  coerce_parameter_value, read_parameter, create_parameter, create_parameter_lem,
}

-- The texts with "%v" of a number stand for those of all.
abbrev text_of : ParameterValue → String
text_of (boolean true) = "true"
text_of (boolean false) = "false"
text_of (integer n) = "7"
text_of (float x) = "0.5"
text_of (text s) = s

abbrev test_parameters : ParameterServer ParameterValue
test_parameters = record {
  set_parameter = λ parameter v s. (none, v);
  show_parameter = λ parameter s. (ok (some (text_of s)), s);
  parse_float = λ s. none;
}

-- The planned text has a leading zero, which the value that is read back has not.
abbrev planned : World ParameterData ParameterValue
planned = record {
  resource = record {
    id = "";
    parameter = "ttlMonitorSleepSecs";
    value = "07";
    ignore_read = false;
  };
  server = text "";
}

coerces : coerce_parameter_value test_parameters "07" ≡ integer (pos 7)
unfolding coerce_parameter_value atoi
coerces = refl

create_parameter_lem_example :
    let d = planned.resource in
    let r = (create_parameter test_parameters planned).1 in
    let named = record d { id = format_resource_id "admin" d.parameter } in
    (v : ParameterValue) × (s1 : ParameterValue) × StandsFor test_parameters d.value v
    × (test_parameters.set_parameter d.parameter v planned.server ≡ (none, s1))
    × (d.ignore_read ≡ true → r ≡ record { resource = named; server = s1 })
    × (d.ignore_read ≡ false
        → (t : String) × (test_parameters.show_parameter d.parameter s1 ≡ (ok (some t), r.server))
          × (r.resource ≡ record named { value = t }))
unfolding create_parameter read_parameter parse_resource_id format_resource_id split_first joined
create_parameter_lem_example = create_parameter_lem test_parameters planned refl refl
