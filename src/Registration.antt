-- ===== src/Registration.antt =====
-- nsq.c, message.c, nsq_lookupd.c and nsq_exception.c: what the extension tells PHP when it is loaded, as
-- the calls that it makes, and how many arguments its methods take. What PHP does with them is not in the
-- sources.
pub mod Module
pub mod Arity
mod Tests
use php_nsq.Prelude.{
  ℕ, Bool, true, false, ◌&&◌, Option, none, some, Bytes, List, [], ◌∷◌, ◌++◌, map, codes, leb,
}
use php_nsq.Wire.{ℤ, pos, negsuc}
use php_nsq.Exception.{registered}

-- The functions that `PHP_METHOD` defines for these classes, but that of `NsqException`, which no table has.
pub data Handler : Type 0 where
  nsq_construct : Handler
  connect_nsqd : Handler
  close_nsqd_connection : Handler
  publish : Handler
  deferred_publish : Handler
  subscribe : Handler
  message_touch : Handler
  message_requeue : Handler
  message_finish : Handler
  lookupd_construct : Handler

-- `ZEND_BEGIN_ARG_INFO_EX` with its last argument, and the names behind it.
pub record ArgInfo : Type 0 where
  pub required_num_args : ℤ
  pub names : List Bytes

-- `PHP_ME`
pub record Entry : Type 0 where
  pub name : Bytes
  pub handler : Handler
  pub arg_info : ArgInfo

abbrev arg_info : ℤ → List Bytes → ArgInfo
arg_info required names = record { required_num_args = required; names = names }

abbrev php_me : Bytes → Handler → ArgInfo → Entry
php_me name handler info = record { name = name; handler = handler; arg_info = info }

unfoldable pub arginfo_nsq_ctor : ArgInfo
arginfo_nsq_ctor = arg_info (negsuc 0) (codes "nsq_config" ∷ [])

unfoldable pub arginfo_nsq_connect_nsqd : ArgInfo
arginfo_nsq_connect_nsqd = arg_info (negsuc 0) (codes "connect_addr_arr" ∷ [])

unfoldable pub arginfo_close_nsqd_connection : ArgInfo
arginfo_close_nsqd_connection = arg_info (negsuc 0) []

-- The spelling is the source's.
unfoldable pub arginfo_nsq_subscribe : ArgInfo
arginfo_nsq_subscribe = arg_info (negsuc 0) (codes "conifg" ∷ codes "callback" ∷ [])

unfoldable pub arginfo_nsq_publish : ArgInfo
arginfo_nsq_publish = arg_info (negsuc 0) (codes "topic" ∷ codes "msg" ∷ [])

unfoldable pub arginfo_nsq_d_publish : ArgInfo
arginfo_nsq_d_publish = arg_info (negsuc 0) (codes "topic" ∷ codes "msg" ∷ codes "delay_time" ∷ [])

unfoldable pub nsq_functions : List Entry
nsq_functions =
    php_me (codes "__construct") nsq_construct arginfo_nsq_ctor
    ∷ php_me (codes "connectNsqd") connect_nsqd arginfo_nsq_connect_nsqd
    ∷ php_me (codes "closeNsqdConnection") close_nsqd_connection arginfo_close_nsqd_connection
    ∷ php_me (codes "publish") publish arginfo_nsq_publish
    ∷ php_me (codes "deferredPublish") deferred_publish arginfo_nsq_d_publish
    ∷ php_me (codes "subscribe") subscribe arginfo_nsq_subscribe
    ∷ []

unfoldable pub arginfo_nsq_requeue : ArgInfo
arginfo_nsq_requeue =
    arg_info (negsuc 0) (codes "bev_zval" ∷ codes "message_id" ∷ codes "time_ms" ∷ [])

unfoldable pub arginfo_nsq_touch : ArgInfo
arginfo_nsq_touch = arg_info (negsuc 0) (codes "bev_zval" ∷ codes "message_id" ∷ [])

unfoldable pub arginfo_nsq_finish : ArgInfo
arginfo_nsq_finish = arg_info (negsuc 0) (codes "bev_zval" ∷ codes "message_id" ∷ [])

unfoldable pub nsq_message_functions : List Entry
nsq_message_functions =
    php_me (codes "touch") message_touch arginfo_nsq_touch
    ∷ php_me (codes "requeue") message_requeue arginfo_nsq_requeue
    ∷ php_me (codes "finish") message_finish arginfo_nsq_finish
    ∷ []

-- `ctor` of nsq_lookupd.c
unfoldable pub arginfo_lookupd_ctor : ArgInfo
arginfo_lookupd_ctor = arg_info (pos 1) (codes "address" ∷ [])

unfoldable pub nsq_lookupd_functions : List Entry
nsq_lookupd_functions = php_me (codes "__construct") lookupd_construct arginfo_lookupd_ctor ∷ []

-- The calls: a class with the table of its functions, a property of the class that was registered last, a
-- constant, the destructor of a kind of resource.
pub data Call : Type 0 where
  register_class : (name : Bytes) → (parent : Option Bytes) → List Entry → Call
  declare_property_null : (name : Bytes) → Call
  register_long_constant : (name : Bytes) → ℕ → Call
  register_list_destructors : (type_name : Bytes) → Call

unfoldable pub lookupd_init : List Call
lookupd_init =
    register_class (codes "NsqLookupd") none nsq_lookupd_functions
    ∷ declare_property_null (codes "address")
    ∷ []

unfoldable pub nsq_message_init : List Call
nsq_message_init =
    register_class (codes "NsqMessage") none nsq_message_functions
    ∷ declare_property_null (codes "message_id")
    ∷ declare_property_null (codes "messageId")
    ∷ declare_property_null (codes "timestamp")
    ∷ declare_property_null (codes "attempts")
    ∷ declare_property_null (codes "payload")
    ∷ []

unfoldable pub nsq_exception_init : List Call
nsq_exception_init =
    register_class (codes "NsqException") (some (codes "Exception")) []
    ∷ map (λ c. register_long_constant c.0 c.1) registered

-- `PHP_MINIT_FUNCTION(nsq)`
unfoldable pub minit : List Call
minit =
    register_class (codes "Nsq") none nsq_functions
    ∷ declare_property_null (codes "nsqConfig")
    ∷ declare_property_null (codes "nsqd_connection_fds")
    ∷ declare_property_null (codes "conn_timeout")
    ∷ register_list_destructors (codes "buffer event")
    ∷ (lookupd_init ++ (nsq_message_init ++ nsq_exception_init))

-- `ZEND_PARSE_PARAMETERS_START` of each function: the least and the greatest number of arguments; one
-- function parses none and looks at none.
unfoldable pub parse_parameters : Handler → Option (ℕ × ℕ)
parse_parameters nsq_construct = some (0, 1)
parse_parameters connect_nsqd = some (1, 1)
parse_parameters close_nsqd_connection = none
parse_parameters publish = some (2, 2)
parse_parameters deferred_publish = some (3, 3)
parse_parameters subscribe = some (3, 3)
parse_parameters message_touch = some (2, 2)
parse_parameters message_requeue = some (3, 3)
parse_parameters message_finish = some (2, 2)
parse_parameters lookupd_construct = some (1, 1)

unfoldable pub accepts : Handler → ℕ → Bool
accepts h n = elim (parse_parameters h) [
  | none ↦ true
  | some bounds ↦ leb bounds.0 n && leb n bounds.1
]
