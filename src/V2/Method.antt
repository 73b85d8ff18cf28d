-- ===== src/V2/Method.antt =====
-- The method names of wallet-connect/src/v2/protocol.rs.
use play_cpp_sdk.Prelude.Text.{Text, codes}

abbrev pub propose : Text
propose = codes "wc_sessionPropose"

abbrev pub ping : Text
ping = codes "wc_sessionPing"

abbrev pub request : Text
request = codes "wc_sessionRequest"
