-- ===== src/Registration/Module.antt =====
-- nsq.c, the module entry and the functions of the module that it names, and the version of php_nsq.h.
use php_nsq.Prelude.{Option, none, Bytes, List, [], ◌∷◌, codes}
use php_nsq.Registration.{Entry, Call, minit}

-- `PHP_MINIT(nsq)` and its like.
pub data ModuleFunction : Type 0 where
  minit_nsq : ModuleFunction
  mshutdown_nsq : ModuleFunction
  rinit_nsq : ModuleFunction
  rshutdown_nsq : ModuleFunction
  minfo_nsq : ModuleFunction

-- The registrations that the function makes. The second, third and fourth return SUCCESS, the third behind
-- an update of PHP's thread-local cache where the module is built for threads.
unfoldable pub registers : ModuleFunction → List Call
registers minit_nsq = minit
registers mshutdown_nsq = []
registers rinit_nsq = []
registers rshutdown_nsq = []
registers minfo_nsq = []

-- `PHP_NSQ_VERSION`
abbrev version : Bytes
version = codes "3.9.1"

-- The rows of the table that the function prints, its header first.
unfoldable pub info_rows : ModuleFunction → List (Bytes × Bytes)
info_rows minit_nsq = []
info_rows mshutdown_nsq = []
info_rows rinit_nsq = []
info_rows rshutdown_nsq = []
info_rows minfo_nsq =
    (codes "nsq support", codes "enabled")
    ∷ (codes "version", version)
    ∷ (codes "author", codes "zhenyu.wu[email:wuzhenyu@kuangjue.com]")
    ∷ []

-- `zend_module_entry`; `functions` are those outside the classes.
pub record ModuleEntry : Type 0 where
  pub deps : List Bytes
  pub name : Bytes
  pub functions : Option (List Entry)
  pub module_startup : ModuleFunction
  pub module_shutdown : ModuleFunction
  pub request_startup : ModuleFunction
  pub request_shutdown : ModuleFunction
  pub info : ModuleFunction
  pub version_text : Bytes

unfoldable pub nsq_module_entry : ModuleEntry
nsq_module_entry = record {
  deps = codes "json" ∷ [];
  name = codes "nsq";
  functions = none;
  module_startup = minit_nsq;
  module_shutdown = mshutdown_nsq;
  request_startup = rinit_nsq;
  request_shutdown = rshutdown_nsq;
  info = minfo_nsq;
  version_text = version;
}
