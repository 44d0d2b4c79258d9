-- ===== src/Fcv/Tests.antt =====
-- A cluster with a version, and the theorems of mongodb/resource_fcv.go at it.
use terraform_provider_mongo.Prelude.{String, none, ◌≡◌, ◌↔◌, refl, ℤ, ok}
use terraform_provider_mongo.Commands.{replied, ok_reply}
use terraform_provider_mongo.Discovery.{split_first}
use terraform_provider_mongo.Fcv.{
  FcvData, FcvServer, Comparison, less, same, atoi, parse_fcv_parts, compare_parts, compare_fcv,
}
use terraform_provider_mongo.Fcv.Version.{IsVersion}
use terraform_provider_mongo.Fcv.Order.{Lowers, opposite, compare_fcv_order}

abbrev test_fcv : FcvServer String
test_fcv = record {
  show_fcv = λ s. (replied (record { version = s; response = ok_reply }), s);
  set_fcv = λ v s. (none, v);
}

abbrev lowered : FcvData
lowered = record { id = "fcv"; version = "6.0" }

-- 10.0 is higher than 9.3, as numbers and not as texts.
compare_numbers : compare_fcv "9.3" "10.0" ≡ ok less
unfolding compare_fcv parse_fcv_parts split_first atoi compare_parts
compare_numbers = refl

compare_fcv_order_example :
    ((compare_fcv "9.3" "10.0" ≡ ok less) ↔ Lowers "9.3" "10.0")
    × ((x : Comparison)
        → compare_fcv "9.3" "10.0" ≡ ok x
        → compare_fcv "10.0" "9.3" ≡ ok (opposite x))
    × (compare_fcv "9.3" "10.0" ≡ ok less
        → compare_fcv "10.0" "10.1" ≡ ok less
        → compare_fcv "9.3" "10.1" ≡ ok less)
    × ((compare_fcv "9.3" "10.0" ≡ ok same)
        ↔ ((p : ℤ × ℤ) × IsVersion "9.3" p × IsVersion "10.0" p))
compare_fcv_order_example = compare_fcv_order "9.3" "10.0" "10.1"
