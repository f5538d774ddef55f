-- ===== src/Tests/Starts.antt =====
-- A restore by a client that has no workspace.
use baas_go_sdk.Base.{some, []}
use baas_go_sdk.Base.Text.{codes}
use baas_go_sdk.Errors.Outcome.{ok, panic}
use baas_go_sdk.Client.Transfer.{Readers, restore}
use baas_go_sdk.Client.Starts.{Started, restore-Started}
use baas_go_sdk.Tests.Toys.{toy_libraries, toy_keyfiles}
use baas_go_sdk.Tests.Clients.{net, client}
use baas_go_sdk.Tests.Runs.{snapshot, options, key_disk, allowed, no_time}

abbrev readers : Readers
readers = record {
  snapshot_d = record { zero_value = snapshot; unmarshal = λ text. ok snapshot };
  urls_d = record {
    zero_value = record { packs = []; standalone = [] };
    unmarshal = λ text. panic;
  };
  unmarshal_tree = λ text. panic;
  fetch = λ url. panic;
  as_slice = λ bytes. record { bytes = bytes; spare = [] };
}

restore-Started_example :
    Started net readers toy_libraries toy_keyfiles key_disk 2 allowed no_time client
      (codes "s")
      (codes "/r")
      (some options)
      []
      (restore net readers toy_libraries toy_keyfiles key_disk 2 allowed no_time client
        (codes "s")
        (codes "/r")
        (some options)
        [])
restore-Started_example =
    restore-Started net readers toy_libraries toy_keyfiles key_disk 2 allowed no_time client
      (codes "s") (codes "/r") (some options) []
