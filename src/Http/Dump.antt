-- ===== src/Http/Dump.antt =====
-- HttpRequest::dump and HttpResponse::dump of server/library/protocol/http: what they put into the
-- stream.
use uiconnect.Base.{ℕ, ◌/◌, ◌%◌, Bool, List, [], ◌∷◌, ◌++◌, length, if◌then◌else◌}
use uiconnect.Base.Text.{codes, decimal}
use uiconnect.Http.{MapType, same_key}
use uiconnect.Http.Names.{method_to_string, status_to_string}
use uiconnect.Http.Request.{HttpRequest}
use uiconnect.Http.Response.{HttpResponse}

-- "\r\n"
abbrev pub end_line : List ℕ
end_line = 13 ∷ 10 ∷ []

-- the loop over the headers, with what stands between a key and its value
unfoldable pub dump_headers : List ℕ → MapType → List ℕ
unfolding same_key
dump_headers sep [] = []
dump_headers sep ((k, v) ∷ rest) =
    let more = dump_headers sep rest in
    if same_key k (codes "connection") then more else k ++ (sep ++ (v ++ (end_line ++ more)))

abbrev pub connection_line : Bool → List ℕ
connection_line close =
    codes "connection: " ++ ((if close then codes "close" else codes "keep-alive") ++ end_line)

-- a text with a mark in front, or nothing
abbrev pub marked : ℕ → List ℕ → List ℕ
marked mark [] = []
marked mark (c ∷ cs) = mark ∷ c ∷ cs

abbrev pub dump_body : List ℕ → List ℕ
unfolding decimal
dump_body [] = end_line
dump_body (c ∷ cs) =
    codes "content-length: " ++ (decimal (length (c ∷ cs)) ++ (end_line ++ (end_line ++ c ∷ cs)))

abbrev pub version_text : ℕ → List ℕ
unfolding decimal
version_text version = decimal (version / 16) ++ (codes "." ++ decimal (version % 16))

-- HttpRequest::dump
unfoldable pub dump_request : HttpRequest → List ℕ
unfolding method_to_string dump_headers dump_body version_text
dump_request r =
    method_to_string r.method
    ++ (codes " "
        ++ (r.path
            ++ (marked 63 r.query
                ++ (marked 35 r.fragment
                    ++ (codes " HTTP/"
                        ++ (version_text r.version
                            ++ (end_line
                                ++ (connection_line r.close
                                    ++ (dump_headers (codes ":") r.headers
                                        ++ dump_body r.body)))))))))

abbrev pub reason_text : ℕ → List ℕ → List ℕ
unfolding status_to_string
reason_text status [] = status_to_string status
reason_text status (c ∷ cs) = c ∷ cs

-- HttpResponse::dump
unfoldable pub dump_response : HttpResponse → List ℕ
unfolding reason_text dump_headers dump_body version_text decimal
dump_response r =
    codes "HTTP/"
    ++ (version_text r.version
        ++ (codes " "
            ++ (decimal r.status
                ++ (codes " "
                    ++ (reason_text r.status r.reason
                        ++ (end_line
                            ++ (dump_headers (codes ": ") r.headers
                                ++ ((if r.websocket then [] else connection_line r.close)
                                    ++ dump_body r.body))))))))
