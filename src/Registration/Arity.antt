-- ===== src/Registration/Arity.antt =====
-- How many arguments the methods take, and how many they are declared with.
use php_nsq.Prelude.{
  ℕ, zero, suc, ◌≡◌, refl, Bool, true, false, not, ◌&&◌, some, List, [], ◌∷◌, ◌++◌, All, length,
  get_elem?, leb, arith,
}
use mathlib.Core.Path.{subst}
use php_nsq.Wire.{pos, negsuc}
use php_nsq.Registration.Module.{registers, nsq_module_entry}
use php_nsq.Registration.{
  Handler, nsq_construct, connect_nsqd, close_nsqd_connection, publish, deferred_publish, subscribe,
  message_touch, message_requeue, message_finish, lookupd_construct, ArgInfo, Entry, nsq_functions,
  nsq_message_functions, nsq_lookupd_functions, Call, register_class, declare_property_null,
  register_long_constant, register_list_destructors, nsq_exception_init, lookupd_init,
  nsq_message_init, minit, parse_parameters, accepts, arginfo_nsq_ctor, arginfo_nsq_connect_nsqd,
  arginfo_close_nsqd_connection, arginfo_nsq_subscribe, arginfo_nsq_publish, arginfo_nsq_d_publish,
  arginfo_nsq_requeue, arginfo_nsq_touch, arginfo_nsq_finish, arginfo_lookupd_ctor,
}

-- The tables of all classes that the calls register.
abbrev pub methods : List Call → List Entry
methods [] = []
methods (register_class name parent entries ∷ calls) = entries ++ methods calls
methods (declare_property_null name ∷ calls) = methods calls
methods (register_long_constant name n ∷ calls) = methods calls
methods (register_list_destructors type_name ∷ calls) = methods calls

-- What PHP reads in the declaration: -1 says that all arguments are required.
abbrev pub required : ArgInfo → ℕ
required info = elim info.required_num_args [ pos n ↦ n | negsuc n ↦ length info.names ]

abbrev pub stated : ArgInfo → ℕ → Bool
stated info n = leb (required info) n && leb n (length info.names)

abbrev pub is_subscribe : Handler → Bool
is_subscribe nsq_construct = false
is_subscribe connect_nsqd = false
is_subscribe close_nsqd_connection = false
is_subscribe publish = false
is_subscribe deferred_publish = false
is_subscribe subscribe = true
is_subscribe message_touch = false
is_subscribe message_requeue = false
is_subscribe message_finish = false
is_subscribe lookupd_construct = false

abbrev Served : Entry → Type 0
Served m = (n : ℕ) → stated m.arg_info n ≡ true → accepts m.handler n ≡ not (is_subscribe m.handler)

All-get_elem? :
    (P : Entry → Type 0) (ms : List Entry) (i : ℕ) (m : Entry)
    → All P ms
    → get_elem? ms i ≡ some m
    → P m
All-get_elem? P [] i m h e = absurd (cc e)
All-get_elem? P (x ∷ ms) zero m h e = subst P (cc e) h.0
All-get_elem? P (x ∷ ms) (suc i) m h e = All-get_elem? P ms i m h.1 e

startup-Served : All Served (methods (registers nsq_module_entry.module_startup))
unfolding nsq_module_entry registers minit lookupd_init nsq_message_init nsq_exception_init
    nsq_functions nsq_message_functions nsq_lookupd_functions accepts parse_parameters
    arginfo_nsq_ctor arginfo_nsq_connect_nsqd arginfo_close_nsqd_connection arginfo_nsq_subscribe
    arginfo_nsq_publish arginfo_nsq_d_publish arginfo_nsq_requeue arginfo_nsq_touch
    arginfo_nsq_finish arginfo_lookupd_ctor php_nsq.Exception.registered
startup-Served = (
  λ n h. ground arith,
  (
    λ n h. h,
    (
      λ n h. refl,
      (
        λ n h. h,
        (λ n h. h, (λ n h. ground arith, (λ n h. h, (λ n h. h, (λ n h. h, (λ n h. h, tt)))))),
      ),
    ),
  ),
)

-- Of the methods of all classes that the module registers when it is loaded, each takes every number of arguments that it is declared with, but for
-- `Nsq::subscribe`, which takes none of them.
pub accepts-stated :
    (i : ℕ) (m : Entry) (n : ℕ)
    → get_elem? (methods (registers nsq_module_entry.module_startup)) i ≡ some m
    → stated m.arg_info n ≡ true
    → accepts m.handler n ≡ not (is_subscribe m.handler)
accepts-stated i m n at_i h =
    All-get_elem? Served (methods (registers nsq_module_entry.module_startup)) i m startup-Served
      at_i n h
