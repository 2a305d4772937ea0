-- ===== src/Result.antt =====
-- protocol/Result.h: the result codes of the server and of a response, and the translation.
use cpp_epoll_chat.Base.{ℕ, ◌≡◌, refl, Bool, true, false}

pub data Result : Type 0 where
  no_result success room_not_found room_already_exists room_full user_not_found : Result
  db_not_found db_error db_duplicate : Result

-- The tests `== Result::Success` and `== Result::None`.
abbrev pub is_success : Result → Bool
is_success Result.success = true
is_success _ = false

abbrev pub is_none : Result → Bool
is_none Result.no_result = true
is_none _ = false

pub data ResponseResultCode : Type 0 where
  no_result success room_not_found room_already_exists room_full : ResponseResultCode
  user_not_found db_not_found db_error db_duplicate : ResponseResultCode

unfoldable pub result_to_resresultcode : Result → ResponseResultCode
result_to_resresultcode Result.success = ResponseResultCode.success
result_to_resresultcode Result.room_not_found = ResponseResultCode.room_not_found
result_to_resresultcode Result.room_already_exists = ResponseResultCode.room_already_exists
result_to_resresultcode Result.room_full = ResponseResultCode.room_full
result_to_resresultcode Result.user_not_found = ResponseResultCode.user_not_found
result_to_resresultcode Result.db_not_found = ResponseResultCode.db_not_found
result_to_resresultcode Result.db_error = ResponseResultCode.db_error
result_to_resresultcode Result.db_duplicate = ResponseResultCode.db_duplicate
result_to_resresultcode Result.no_result = ResponseResultCode.no_result

-- The byte of a code: its place in the enumeration.
unfoldable pub code_byte : ResponseResultCode → ℕ
code_byte ResponseResultCode.no_result = 0
code_byte ResponseResultCode.success = 1
code_byte ResponseResultCode.room_not_found = 2
code_byte ResponseResultCode.room_already_exists = 3
code_byte ResponseResultCode.room_full = 4
code_byte ResponseResultCode.user_not_found = 5
code_byte ResponseResultCode.db_not_found = 6
code_byte ResponseResultCode.db_error = 7
code_byte ResponseResultCode.db_duplicate = 8

-- The place of a result in its own enumeration.
unfoldable pub result_byte : Result → ℕ
result_byte Result.no_result = 0
result_byte Result.success = 1
result_byte Result.room_not_found = 2
result_byte Result.room_already_exists = 3
result_byte Result.room_full = 4
result_byte Result.user_not_found = 5
result_byte Result.db_not_found = 6
result_byte Result.db_error = 7
result_byte Result.db_duplicate = 8

-- The two enumerations agree: the translation keeps the number of every result.
pub code_byte-result_to_resresultcode :
    (r : Result) → code_byte (result_to_resresultcode r) ≡ result_byte r
unfolding code_byte result_to_resresultcode result_byte
code_byte-result_to_resresultcode Result.no_result = refl
code_byte-result_to_resresultcode _ = refl
