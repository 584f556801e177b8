-- ===== src/Tests/Builders.antt =====
-- Instructions that the builders build.
use playkaboom.Common.{none}
use playkaboom.Sdk.Builders.Laws.Vrf as VrfLaws
use playkaboom.Sdk.Builders.Laws.Call.{Call, IsExact, build-IsExact}
use playkaboom.Tests.Toy.{Key, program_key, player_key, house_key, toy, toy-IsWeb3}

abbrev reveal : Call Key
reveal = Call.vrf (VrfLaws.Call.reveal_request_vrf player_key house_key 5 300 none)

build-IsExact_example : IsExact toy program_key reveal
build-IsExact_example = build-IsExact toy-IsWeb3 program_key reveal
