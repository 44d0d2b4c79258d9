-- ===== src/Profiler/Tests.antt =====
-- A server with the profiler's settings of one database, and the theorems of mongodb/resource_profiler.go
-- at it.
use terraform_provider_mongo.Prelude.{String, none, pos, ok}
use terraform_provider_mongo.Prelude.Action.{World}
use terraform_provider_mongo.Profiler.{ProfilerData, ProfileResponse, ProfilerServer}

abbrev test_profiler : ProfilerServer ProfileResponse
test_profiler = record {
  profile = λ database p s. (none, p);
  show_profile = λ database s. (ok s, s);
  disable = λ database s. (none, record s { was = pos 0 });
}

abbrev stored : ProfileResponse → String → ProfileResponse
stored s database = s

abbrev planned : World ProfilerData ProfileResponse
planned = record {
  resource = record {
    id = "";
    database = "app";
    level = pos 1;
    slowms = pos 200;
    ratelimit = pos 1;
  };
  server = record { was = pos 0; slowms = pos 100; ratelimit = pos 1 };
}
