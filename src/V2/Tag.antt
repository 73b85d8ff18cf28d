-- ===== src/V2/Tag.antt =====
-- The message tags of wallet-connect/src/v2/protocol.rs.
use play_cpp_sdk.Prelude.{ℕ}

abbrev pub propose_request : ℕ
propose_request = 1100

abbrev pub settle_response : ℕ
settle_response = 1103

abbrev pub update_response : ℕ
update_response = 1105

abbrev pub extend_response : ℕ
extend_response = 1107

abbrev pub request : ℕ
request = 1108

abbrev pub event_response : ℕ
event_response = 1111

abbrev pub delete_response : ℕ
delete_response = 1113

abbrev pub ping_request : ℕ
ping_request = 1114

abbrev pub ping_response : ℕ
ping_response = 1115
