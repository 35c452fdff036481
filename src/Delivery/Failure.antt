-- ===== src/Delivery/Failure.antt =====
-- delivery/state.py: the classes of delivery errors, by the words that the message holds.
use text.Mathlib.Text.{find?}
use togo.Common.{String, Bool, List, [], ◌∷◌, if◌then◌else◌, is_some, any, str_eq}
use togo.Delivery.{
  Status, link_invalid, delivery_failed_retryable, delivery_failed_final, TextTables,
}

pub data Kind : Type 0 where
  auth flood invalid timeout network rate temporary final : Kind

-- `word in text`
abbrev contains : String → String → Bool
contains text word = is_some (find? text word)

-- `any(word in text for word in words)`
unfoldable pub holds_any : String → List String → Bool
holds_any text words = any (contains text) words

abbrev pub flood_words : List String
flood_words = "flood" ∷ "floodwait" ∷ "too many requests" ∷ "slowmode" ∷ "peer flood" ∷ []

abbrev pub auth_words : List String
auth_words =
    "cookie" ∷ "auth_required" ∷ "未配置" ∷ "请先登录" ∷ "login required" ∷ "unauthorized" ∷ "401" ∷ "403"
    ∷ []

abbrev pub invalid_words : List String
invalid_words =
    "格式无效" ∷ "链接为空" ∷ "失效" ∷ "不可用" ∷ "invalid" ∷ "unavailable" ∷ "password_error" ∷ "not_found"
    ∷ "expired" ∷ "cancelled" ∷ "已失效" ∷ "分享链接已失效" ∷ []

abbrev pub timeout_words : List String
timeout_words = "timeout" ∷ "timed out" ∷ "time out" ∷ "超时" ∷ []

abbrev pub rate_words : List String
rate_words = "rate_limited" ∷ "rate limit" ∷ "429" ∷ "限流" ∷ []

abbrev pub network_words : List String
network_words = "network" ∷ "connection" ∷ "proxy" ∷ "tls" ∷ "ssl" ∷ []

abbrev pub temporary_words : List String
temporary_words = "temporar" ∷ "500" ∷ "502" ∷ "503" ∷ "504" ∷ "busy" ∷ "locked" ∷ []

-- The tests of a folded message that is not blank, in their order.
abbrev pub classify_folded : String → Kind
classify_folded text =
    if holds_any text flood_words
    then flood
    else if holds_any text auth_words
    then auth
    else if holds_any text ("unknown" ∷ [])
    then temporary
    else if holds_any text invalid_words
    then invalid
    else if holds_any text timeout_words
    then timeout
    else if holds_any text rate_words
    then rate
    else if holds_any text network_words
    then network
    else if holds_any text temporary_words
    then temporary
    else final

unfoldable pub classify_delivery_failure : TextTables → String → Kind
classify_delivery_failure t message =
    let text = t.casefold message in
    if str_eq (t.strip text) "" then temporary else classify_folded text

abbrev pub status_of_kind : Kind → Status
status_of_kind invalid = link_invalid
status_of_kind final = delivery_failed_final
status_of_kind _ = delivery_failed_retryable

unfoldable pub delivery_failed_status : TextTables → String → Status
unfolding classify_delivery_failure
delivery_failed_status t message = status_of_kind (classify_delivery_failure t message)
