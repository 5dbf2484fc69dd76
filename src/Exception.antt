-- ===== src/Exception.antt =====
-- nsq_exception.c and nsq_exception.h: the error codes, their messages, and the constants that PHP sees.
use php_nsq.Prelude.{
  ℕ, ◌≡◌, refl, sym, ap, ◌∙◌, Bool, true, false, ◌&&◌, Bytes, List, [], ◌∷◌, codes, ◌==◌,
  if◌then◌else◌,
}

-- `php_nsq_error_code`
pub data ErrorCode : Type 0 where
  none_set : ErrorCode
  no_connection : ErrorCode
  unable_to_publish_message : ErrorCode
  topic_key_required : ErrorCode
  channel_key_required : ErrorCode
  lookupd_server_not_available : ErrorCode
  pub_lost_connection : ErrorCode
  topic_not_exists : ErrorCode
  callback_function_is_not_callable : ErrorCode
  libevent_could_not_be_initialized : ErrorCode
  connection_failed : ErrorCode

-- The values of the enumeration.
unfoldable pub number : ErrorCode → ℕ
number none_set = 0
number no_connection = 1
number unable_to_publish_message = 2
number topic_key_required = 3
number channel_key_required = 4
number lookupd_server_not_available = 5
number pub_lost_connection = 6
number topic_not_exists = 7
number callback_function_is_not_callable = 8
number libevent_could_not_be_initialized = 9
number connection_failed = 10

unfoldable pub get_error_msg : ErrorCode → Bytes
get_error_msg none_set = codes "No error"
get_error_msg no_connection = codes "No connection to close"
get_error_msg unable_to_publish_message = codes "Unable to publish message"
get_error_msg topic_key_required = codes "Topic key is required"
get_error_msg channel_key_required = codes "Channel key is required"
get_error_msg lookupd_server_not_available = codes "Lookupd server not available"
get_error_msg pub_lost_connection = codes "Pub lost connection"
get_error_msg topic_not_exists = codes "Topic not exists"
get_error_msg callback_function_is_not_callable =
    codes "Callback function in subscribe is not callable"
get_error_msg libevent_could_not_be_initialized = codes "Could not initialize libevent"
get_error_msg connection_failed = codes "Connection failed"

-- The constants that `nsq_exception_init` registers, in order.
unfoldable pub registered : List (Bytes × ℕ)
unfolding number
registered =
    (codes "NSQ_ERROR_NONE", number none_set)
    ∷ (codes "NSQ_ERROR_NO_CONNECTION", number no_connection)
    ∷ (codes "NSQ_ERROR_UNABLE_TO_PUBLISH_MESSAGE", number unable_to_publish_message)
    ∷ (codes "NSQ_ERROR_TOPIC_KEY_REQUIRED", number topic_key_required)
    ∷ (codes "NSQ_ERROR_CHANNEL_KEY_REQUIRED", number channel_key_required)
    ∷ (codes "NSQ_ERROR_LOOKUPD_SERVER_NOT_AVAILABLE", number lookupd_server_not_available)
    ∷ (codes "NSQ_ERROR_PUB_LOST_CONNECTION", number pub_lost_connection)
    ∷ (codes "NSQ_ERROR_TOPIC_NOT_EXISTS", number topic_not_exists)
    ∷ (
      codes "NSQ_ERROR_CALLBACK_FUNCTION_IS_NOT_CALLABLE",
      number callback_function_is_not_callable,
    )
    ∷ (
      codes "NSQ_ERROR_LIBEVENT_COULD_NOT_BE_INITIALIZED",
      number libevent_could_not_be_initialized,
    )
    ∷ (codes "NSQ_ERROR_CONNECTION_FAILED", number connection_failed)
    ∷ []

pub record Exception : Type 0 where
  pub message : Bytes
  pub code : ℕ

unfoldable pub throw_exception : ErrorCode → Exception
throw_exception e = record { message = get_error_msg e; code = number e }

-- Which codes have the message `s`, and which the number `n`.
same_text : Bytes → Bytes → Bool
same_text [] [] = true
same_text [] (y ∷ ys) = false
same_text (x ∷ xs) [] = false
same_text (x ∷ xs) (y ∷ ys) = (x == y) && same_text xs ys

abbrev all_codes : List ErrorCode
all_codes =
    none_set ∷ no_connection ∷ unable_to_publish_message ∷ topic_key_required ∷ channel_key_required
    ∷ lookupd_server_not_available ∷ pub_lost_connection ∷ topic_not_exists
    ∷ callback_function_is_not_callable ∷ libevent_could_not_be_initialized ∷ connection_failed ∷ []

first : (ErrorCode → Bool) → List ErrorCode → ErrorCode
first test [] = none_set
first test (e ∷ es) = if test e then e else first test es

of_message : Bytes → ErrorCode
of_message s = first (λ e. same_text (get_error_msg e) s) all_codes

of_message-get_error_msg : (e : ErrorCode) → of_message (get_error_msg e) ≡ e
unfolding of_message first same_text get_error_msg
of_message-get_error_msg none_set = refl
of_message-get_error_msg no_connection = refl
of_message-get_error_msg unable_to_publish_message = refl
of_message-get_error_msg topic_key_required = refl
of_message-get_error_msg channel_key_required = refl
of_message-get_error_msg lookupd_server_not_available = refl
of_message-get_error_msg pub_lost_connection = refl
of_message-get_error_msg topic_not_exists = refl
of_message-get_error_msg callback_function_is_not_callable = refl
of_message-get_error_msg libevent_could_not_be_initialized = refl
of_message-get_error_msg connection_failed = refl

-- Two errors whose exceptions have the same message are the same: the message that PHP sees tells
-- the errors apart.
throw_exception-message :
    (a b : ErrorCode) → (throw_exception a).message ≡ (throw_exception b).message → a ≡ b
unfolding throw_exception
throw_exception-message a b h =
    sym (of_message-get_error_msg a) ∙ ap of_message h ∙ of_message-get_error_msg b
