-- ===== src/Ret.antt =====
-- lib/dpapp/dpret.c: the texts of error codes and of HTTP statuses.
mod Examples
pub mod Texts
use Prim.Native.String.{String}
use dpapp.Common.{
  ℕ, zero, suc, ◌+◌, ◌&&◌, Option, none, some, List, [], ◌∷◌, ◌==◌, ltb, leb, if◌then◌else◌,
}
use dpapp.Common.Int.{ℤ, pos, negsuc, int_max, neg_part, pos_part}
use dpapp.Common.Outcome.{Outcome, done, fault, ◌>>=◌}

-- `_errmsgs`: what `dperr_detail` stores in it at its first call; the other entries are NULL.
unfoldable pub errmsgs : List (ℕ × String)
errmsgs =
    (150, "Unknown Error")
    ∷ (151, "Repeat Operation")
    ∷ (152, "Not initialized")
    ∷ (153, "Open Failed")
    ∷ (154, "File or source closed")
    ∷ (155, "Set Attribute Failed")
    ∷ (156, "End of data or file")
    ∷ (157, "Not exists")
    ∷ (158, "Has been initialized")
    ∷ (159, "Initialization due to Invalid parameter")
    ∷ (160, "The parameter type mismatch")
    ∷ (166, "Missing parameter")
    ∷ (167, "Prepareing or bind parameter error")
    ∷ (168, "Need authentication")
    ∷ (169, "Not open source")
    ∷ (170, "Invalid command")
    ∷ (171, "Already authenticated")
    ∷ (172, "Invalid data type")
    ∷ (173, "Listen no events")
    ∷ (174, "Authentication error")
    ∷ (175, "Not support")
    ∷ (176, "No source")
    ∷ (177, "Object or source deleted")
    ∷ (178, "Not enough data or buffer space")
    ∷ (179, "Partially OK")
    ∷ (180, "Ignore the operation")
    ∷ (190, "Continue")
    ∷ (191, "Switching Protocols")
    ∷ (192, "Processing")
    ∷ (193, "Early Hints")
    ∷ (200, "OK")
    ∷ (201, "Created")
    ∷ (202, "Accepted")
    ∷ (203, "Non-Authoritative Information")
    ∷ (204, "No Content")
    ∷ (205, "Reset Content")
    ∷ (206, "Partial Content")
    ∷ (207, "Multi-Status")
    ∷ (208, "Already Reported")
    ∷ (226, "IM Used")
    ∷ (300, "Multiple Choices")
    ∷ (301, "Moved Permanently")
    ∷ (302, "Found")
    ∷ (303, "See Other")
    ∷ (304, "Not Modified")
    ∷ (305, "Use Proxy")
    ∷ (307, "Temporary Redirect")
    ∷ (308, "Permanent Redirect")
    ∷ (400, "Bad Request")
    ∷ (401, "Unauthorized")
    ∷ (402, "Payment Required")
    ∷ (403, "Forbidden")
    ∷ (404, "Not Found")
    ∷ (405, "Method Not Allowed")
    ∷ (406, "Not Acceptable")
    ∷ (407, "Proxy Authentication Required")
    ∷ (408, "Request Timeout")
    ∷ (409, "Conflict")
    ∷ (410, "Gone")
    ∷ (411, "Length Required")
    ∷ (412, "Precondition Failed")
    ∷ (413, "Payload Too Large")
    ∷ (414, "URI Too Long")
    ∷ (415, "Unsupported Media Type")
    ∷ (416, "Range Not Satisfiable")
    ∷ (417, "Expectation Failed")
    ∷ (418, "I'm a teapot")
    ∷ (422, "Unprocessable Entity")
    ∷ (425, "Too Early")
    ∷ (426, "Upgrade Required")
    ∷ (428, "Precondition Required")
    ∷ (429, "Too Many Requests")
    ∷ (431, "Request Header Fields Too Large")
    ∷ (451, "Unavailable For Legal Reasons")
    ∷ (500, "Internal Server Error")
    ∷ (501, "Not Implemented")
    ∷ (502, "Bad Gateway")
    ∷ (503, "Service Unavailable")
    ∷ (504, "Gateway Timeout")
    ∷ (505, "HTTP Version Not Supported")
    ∷ (506, "Variant Also Negotiates")
    ∷ (507, "Insufficient Storage")
    ∷ (508, "Loop Detected")
    ∷ (510, "Not Extended")
    ∷ (511, "Network Authentication Required")
    ∷ []

abbrev pub entry : List (ℕ × String) → ℕ → Option String
entry [] i = none
entry ((k, text) ∷ rows) i = if k == i then some text else entry rows i

-- `_errmsgs[i]`.
unfoldable pub errmsg : ℕ → Option String
errmsg i = entry errmsgs i

abbrev pub or_unknown : Option String → String
or_unknown (some text) = text
or_unknown none = "Unknown Error"

-- `abs` is undefined for `INT_MIN`.
abbrev pub abs : ℤ → Outcome ℕ
abs (pos n) = done n
abs (negsuc n) = if ltb n int_max then done (suc n) else fault

abbrev pub negated : ℕ → ℤ
negated zero = pos 0
negated (suc n) = negsuc n

-- `strerror` is a parameter.
module _ (strerror : ℕ → Option String) where
  -- `dperr_detail`.
  unfoldable pub detail : ℤ → String
  detail (pos n) = or_unknown (strerror n)
  detail (negsuc n) = or_unknown (
      if ltb (suc n) 150
      then strerror (suc n)
      else if ltb (suc n) 600
      then errmsg (suc n)
      else none)

  -- `dperr_http_detail`.
  unfoldable pub http_detail : ℤ → Outcome String
  http_detail http_status = do
    n ← abs http_status
    done (detail (negated (if leb 100 n && ltb n 110 then n + 90 else n)))
