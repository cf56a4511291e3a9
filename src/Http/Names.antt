-- ===== src/Http/Names.antt =====
-- server/library/protocol/http/Http.h and Http.cpp: the methods, which are their numbers, and the
-- statuses.
pub mod Methods
use uiconnect.Base.{ℕ, suc, Bool, Option, none, some, List, [], ◌∷◌, get_elem?, ◌==◌, if◌then◌else◌}
use uiconnect.Base.Text.{codes}
use uiconnect.Buffer.{is_prefix}

-- HTTP_METHOD_MAP, in its order: the place of a name is its number
abbrev pub method_names : List (List ℕ)
method_names =
    codes "DELETE"
    ∷ codes "GET"
    ∷ codes "HEAD"
    ∷ codes "POST"
    ∷ codes "PUT"
    ∷ codes "CONNECT"
    ∷ codes "OPTIONS"
    ∷ codes "TRACE"
    ∷ codes "COPY"
    ∷ codes "LOCK"
    ∷ codes "MKCOL"
    ∷ codes "MOVE"
    ∷ codes "PROPFIND"
    ∷ codes "PROPPATCH"
    ∷ codes "SEARCH"
    ∷ codes "UNLOCK"
    ∷ codes "BIND"
    ∷ codes "REBIND"
    ∷ codes "UNBIND"
    ∷ codes "ACL"
    ∷ codes "REPORT"
    ∷ codes "MKACTIVITY"
    ∷ codes "CHECKOUT"
    ∷ codes "MERGE"
    ∷ codes "M-SEARCH"
    ∷ codes "NOTIFY"
    ∷ codes "SUBSCRIBE"
    ∷ codes "UNSUBSCRIBE"
    ∷ codes "PATCH"
    ∷ codes "PURGE"
    ∷ codes "MKCALENDAR"
    ∷ codes "LINK"
    ∷ codes "UNLINK"
    ∷ codes "SOURCE"
    ∷ []

-- HttpMethod::INVALID_METHOD
abbrev pub invalid_method : ℕ
invalid_method = 34

-- the tests of String2HttpMethod from number `num` on: strncmp over the length of a name is 0 where
-- the text begins with the name
unfoldable pub method_from : ℕ → List (List ℕ) → List ℕ → ℕ
unfolding is_prefix
method_from num [] str = invalid_method
method_from num (name ∷ names) str =
    let later = method_from (suc num) names str in if is_prefix name str then num else later

-- Http::String2HttpMethod
unfoldable pub to_method : List ℕ → ℕ
unfolding method_from
to_method str = method_from 0 method_names str

abbrev or_unknown : List ℕ → Option (List ℕ) → List ℕ
or_unknown text none = text
or_unknown text (some name) = name

-- Http::HttpMethod2String
unfoldable pub method_to_string : ℕ → List ℕ
method_to_string method = or_unknown (codes "<unknown>") (get_elem? method_names method)

-- HTTP_STATUS_MAP
abbrev pub status_names : List (ℕ × List ℕ)
status_names =
    (100, codes "Continue")
    ∷ (101, codes "Switching Protocols")
    ∷ (102, codes "Processing")
    ∷ (200, codes "OK")
    ∷ (201, codes "Created")
    ∷ (202, codes "Accepted")
    ∷ (203, codes "Non-Authoritative Information")
    ∷ (204, codes "No Content")
    ∷ (205, codes "Reset Content")
    ∷ (206, codes "Partial Content")
    ∷ (207, codes "Multi-Status")
    ∷ (208, codes "Already Reported")
    ∷ (226, codes "IM Used")
    ∷ (300, codes "Multiple Choices")
    ∷ (301, codes "Moved Permanently")
    ∷ (302, codes "Found")
    ∷ (303, codes "See Other")
    ∷ (304, codes "Not Modified")
    ∷ (305, codes "Use Proxy")
    ∷ (307, codes "Temporary Redirect")
    ∷ (308, codes "Permanent Redirect")
    ∷ (400, codes "Bad Request")
    ∷ (401, codes "Unauthorized")
    ∷ (402, codes "Payment Required")
    ∷ (403, codes "Forbidden")
    ∷ (404, codes "Not Found")
    ∷ (405, codes "Method Not Allowed")
    ∷ (406, codes "Not Acceptable")
    ∷ (407, codes "Proxy Authentication Required")
    ∷ (408, codes "Request Timeout")
    ∷ (409, codes "Conflict")
    ∷ (410, codes "Gone")
    ∷ (411, codes "Length Required")
    ∷ (412, codes "Precondition Failed")
    ∷ (413, codes "Payload Too Large")
    ∷ (414, codes "URI Too Long")
    ∷ (415, codes "Unsupported Media Type")
    ∷ (416, codes "Range Not Satisfiable")
    ∷ (417, codes "Expectation Failed")
    ∷ (421, codes "Misdirected Request")
    ∷ (422, codes "Unprocessable Entity")
    ∷ (423, codes "Locked")
    ∷ (424, codes "Failed Dependency")
    ∷ (426, codes "Upgrade Required")
    ∷ (428, codes "Precondition Required")
    ∷ (429, codes "Too Many Requests")
    ∷ (431, codes "Request Header Fields Too Large")
    ∷ (451, codes "Unavailable For Legal Reasons")
    ∷ (500, codes "Internal Server Error")
    ∷ (501, codes "Not Implemented")
    ∷ (502, codes "Bad Gateway")
    ∷ (503, codes "Service Unavailable")
    ∷ (504, codes "Gateway Timeout")
    ∷ (505, codes "HTTP Version Not Supported")
    ∷ (506, codes "Variant Also Negotiates")
    ∷ (507, codes "Insufficient Storage")
    ∷ (508, codes "Loop Detected")
    ∷ (510, codes "Not Extended")
    ∷ (511, codes "Network Authentication Required")
    ∷ []

unfoldable pub status_from : List (ℕ × List ℕ) → ℕ → List ℕ
status_from [] status = codes "unknown"
status_from ((code, name) ∷ rest) status =
    let later = status_from rest status in if code == status then name else later

-- Http::HttpStatus2String
unfoldable pub status_to_string : ℕ → List ℕ
unfolding status_from
status_to_string status = status_from status_names status
