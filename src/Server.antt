-- ===== src/Server.antt =====
-- Queries to the beacon node: `querySsz` of pkg/beaconclient/queryserver.go. The HTTP client and the
-- node are a parameter, `Node`: what a GET of an address gives.
use Prim.Native.String.{◌++◌ as str_append}
use ipld_eth_beacon_indexer.Base.{
  ℕ, zero, suc, ◌-◌, ◌||◌, String, List, [], ◌∷◌, Option, none, some, ltb, leb, if◌then◌else◌,
}
use ipld_eth_beacon_indexer.Slot.{format}
use ipld_eth_beacon_indexer.Sql.{Error}
use ipld_eth_beacon_indexer.Consensus.{Coded, coded, refused}

-- `http.NewRequest` fails, `client.Do` fails, or there is a status and a body that may break off.
pub data Response : Type 0 where
  no_request no_answer : Error → Response
  answered : ℕ → Coded (List ℕ) → Response

-- What a GET of an endpoint gives.
pub record Node : Type 0 where
  pub get : List ℕ → Response

abbrev pub digit_text : ℕ → String
digit_text zero = "0"
digit_text (suc zero) = "1"
digit_text (suc (suc zero)) = "2"
digit_text (suc (suc (suc zero))) = "3"
digit_text (suc (suc (suc (suc zero)))) = "4"
digit_text (suc (suc (suc (suc (suc zero))))) = "5"
digit_text (suc (suc (suc (suc (suc (suc zero)))))) = "6"
digit_text (suc (suc (suc (suc (suc (suc (suc zero))))))) = "7"
digit_text (suc (suc (suc (suc (suc (suc (suc (suc zero)))))))) = "8"
digit_text _ = "9"

text_of_digits : List ℕ → String
text_of_digits [] = ""
text_of_digits (c ∷ s) = str_append (digit_text (c - b'0')) (text_of_digits s)

-- `%d`
unfoldable pub decimal : ℕ → String
unfolding text_of_digits
decimal n = text_of_digits (format n)

-- The bytes, the status code and the error.
pub record SszReply : Type 0 where
  pub bytes : List ℕ
  pub status : ℕ
  pub error : Option Error

abbrev body_reply : ℕ → Coded (List ℕ) → SszReply
body_reply rc (coded bytes) = record { bytes = bytes; status = rc; error = none }
body_reply rc (refused e) = record {
  bytes = [];
  status = rc;
  error = some (str_append "Unable to turn response into a []bytes array!: " e);
}

-- Any 2xx code is taken.
abbrev ssz_reply : Response → SszReply
ssz_reply (no_request e) = record {
  bytes = [];
  status = 0;
  error = some (str_append "Unable to create a request!: " e);
}
ssz_reply (no_answer e) = record {
  bytes = [];
  status = 0;
  error = some (str_append "Unable to query Beacon Node: " e);
}
ssz_reply (answered rc body) =
    if ltb rc 200 || leb 300 rc
    then record { bytes = []; status = rc; error = some (str_append "HTTP Error: " (decimal rc)) }
    else body_reply rc body

unfoldable pub query_ssz : Node → (endpoint : List ℕ) → SszReply
query_ssz node endpoint = ssz_reply (node.get endpoint)
