-- ===== src/Tests/Custodies.antt =====
-- The custody adapter over the gate and the request of the tests of the gate.
use vap_spec.Base.{◌≡◌, ◌⊎◌, false, some, []}
use vap_spec.Collector.{CollectorLib}
use vap_spec.Collector.Client.{Client}
use vap_spec.Collector.Adapter.{CustodyTables, CallbackEnv, collected_submit_prepared}
use vap_spec.Collector.Adapter.Required.{Extends, IsRequired}
use vap_spec.Collector.Adapter.Posted.{collected_submit_prepared-IsRequired}
use vap_spec.Collector.Adapter.Recovery.{recover_evidence, recover_evidence-Extends}
use vap_spec.Tests.Payments.{context, adapter, lost, start}
use vap_spec.Tests.Admissions.{gate_platform, gate_config, gate_request, snapshots, evidence}

abbrev lib : CollectorLib
lib = record { platform = gate_platform; hex = λ s. s; unhex = λ s. some s }

abbrev client : Client
client = record {
  context = context;
  trusted = record { public_key = "key"; collector_id = "collector"; recovery_epoch = 1 };
}

abbrev call : CallbackEnv
call = record {
  exchange = record {
    collection = some (200, "ack");
    nonce = "0123456789abcdef0123456789abcdef";
    query = some (200, "readback");
  };
  collection_hook_raises = false;
  persist_fails = false;
  now_ms = 9;
  persisted_hook_raises = false;
}

abbrev tables : CustodyTables
tables = record { epoch = some 1; observations = []; prerequisites = [] }

collected_submit_prepared-IsRequired_example :
    ((collected_submit_prepared lib adapter client gate_config snapshots lost call call
        (some "proof")
        false
        gate_request
        evidence
        (start, tables)).1.0.posted
      ≡ start.posted)
    ⊎ IsRequired lib adapter client call
        (some "proof")
        gate_request
        tables
        (collected_submit_prepared lib adapter client gate_config snapshots lost call call
          (some "proof")
          false
          gate_request
          evidence
          (start, tables)).1.1
collected_submit_prepared-IsRequired_example =
    collected_submit_prepared-IsRequired lib adapter client gate_config snapshots lost call call
      (some "proof") false gate_request evidence start tables

recover_evidence-Extends_example :
    Extends tables
      (recover_evidence lib adapter client lost
        (λ kind. call)
        (some "proof")
        gate_request
        start.journal
        tables).1
recover_evidence-Extends_example =
    recover_evidence-Extends lib adapter client lost (λ kind. call) (some "proof") gate_request
      start.journal tables
