-- ===== src/Forwarder/Lifecycle/Tests.antt =====
-- The theorems on the life of a forwarder at concrete calls.
use aurora_forwarder_contrac.Base.{◌≡◌, ◌≢◌}
use aurora_forwarder_contrac.Crates.Reference.{reference}
use aurora_forwarder_contrac.Forwarder.Contract.{enter}
use aurora_forwarder_contrac.Forwarder.Contract.Exports.{Entry}
use aurora_forwarder_contrac.Forwarder.Fixtures.{in_place}
use aurora_forwarder_contrac.Forwarder.Host.Machine.{machine}
use aurora_forwarder_contrac.Forwarder.Lifecycle.{enter-keeps_storage}

destroy-other_than_new : Entry.destroy ≢ Entry.new
destroy-other_than_new h = cc

enter-keeps_storage_example :
    ((enter machine reference Entry.destroy in_place).1.storage ≡ in_place.storage)
    × ((enter machine reference Entry.destroy in_place).1.current ≡ in_place.current)
enter-keeps_storage_example =
    enter-keeps_storage reference Entry.destroy in_place destroy-other_than_new
