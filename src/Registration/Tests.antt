-- ===== src/Registration/Tests.antt =====
-- The sixth method, as it is declared, and the version that the information page shows.
use php_nsq.Prelude.{◌≡◌, refl, false, some, get_elem?, codes}
use php_nsq.Registration.{subscribe, Entry, arginfo_nsq_subscribe, nsq_functions, minit, accepts}
use php_nsq.Registration.Module.{nsq_module_entry, registers, info_rows}
use php_nsq.Registration.Arity.{accepts-stated}

abbrev sixth : Entry
sixth = record { name = codes "subscribe"; handler = subscribe; arg_info = arginfo_nsq_subscribe }

accepts-stated_example : accepts subscribe 2 ≡ false
unfolding nsq_module_entry registers minit nsq_functions arginfo_nsq_subscribe
accepts-stated_example = accepts-stated 5 sixth 2 refl refl

version_shown :
    get_elem? (info_rows nsq_module_entry.info) 1
    ≡ some (codes "version", nsq_module_entry.version_text)
unfolding info_rows nsq_module_entry
version_shown = refl
