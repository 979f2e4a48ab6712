-- ===== src/Codec/Pkcs7.antt =====
-- `_pkcs7_unpad` of app/services/token_service.py and `_pkcs7_pad` of mock_oauth/app.py.
pub mod Laws
use python_typescript_wiki_b.Base.{
  ℕ, suc, ◌+◌, ◌-◌, ◌%◌, Bool, true, false, ◌||◌, not, Option, none, some, List, [], ◌∷◌, ◌++◌, ltb,
  if◌then◌else◌, same, length, take, drop, replicate, get_last?,
}
use python_typescript_wiki_b.Text.{Bytes}
use python_typescript_wiki_b.Errors.{Exc, app_error, oauth_code_invalid, Result, ok, raised}

abbrev pub block_size : ℕ
block_size = 16

-- `AppError(401, ErrorCode.OAUTH_CODE_INVALID)`
abbrev pub oauth_invalid : Exc
oauth_invalid = app_error 401 oauth_code_invalid

-- `data[-n:]` and `data[:-n]` for 1 ≤ n: all of the data, and none of it, if n passes its length.
abbrev last_bytes : ℕ → Bytes → Bytes
last_bytes n data' = drop (length data' - n) data'

abbrev without_last : ℕ → Bytes → Bytes
without_last n data' = take (length data' - n) data'

strip_padding : ℕ → Bytes → Result Bytes
strip_padding pad_len data' =
    if ltb pad_len 1 || ltb block_size pad_len
    then raised oauth_invalid
    else if not (same (last_bytes pad_len data') (replicate pad_len pad_len))
    then raised oauth_invalid
    else ok (without_last pad_len data')

unfoldable pub pkcs7_unpad : Bytes → Result Bytes
unfolding strip_padding
pkcs7_unpad data' = elim (get_last? data') [
  | none ↦ raised oauth_invalid
  | some pad_len ↦ strip_padding pad_len data'
]

unfoldable pub pkcs7_pad : Bytes → ℕ → Bytes
pkcs7_pad data' size =
    let pad_len = size - length data' % size in data' ++ replicate pad_len pad_len
