-- ===== src/Message/Status.antt =====
-- pkg/base/response.go: the status codes and their messages.
use gortsplib.Common.{ℕ, ◌==◌, if◌then◌else◌, List, [], ◌∷◌}
use gortsplib.Common.Bytes.{codes}

unfoldable pub status_messages : List (ℕ × List ℕ)
status_messages =
    (100, codes "Continue")
    ∷ (200, codes "OK")
    ∷ (301, codes "Moved Permanently")
    ∷ (302, codes "Found")
    ∷ (303, codes "See Other")
    ∷ (304, codes "Not Modified")
    ∷ (305, codes "Use Proxy")
    ∷ (400, codes "Bad Request")
    ∷ (401, codes "Unauthorized")
    ∷ (402, codes "Payment Required")
    ∷ (403, codes "Forbidden")
    ∷ (404, codes "Not Found")
    ∷ (405, codes "Method Not Allowed")
    ∷ (406, codes "Not Acceptable")
    ∷ (407, codes "Proxy Auth Required")
    ∷ (408, codes "Request Timeout")
    ∷ (410, codes "Gone")
    ∷ (412, codes "Precondition Failed")
    ∷ (413, codes "Request Entity Too Large")
    ∷ (414, codes "Request URI Too Long")
    ∷ (415, codes "Unsupported Media Type")
    ∷ (451, codes "Parameter Not Understood")
    ∷ (453, codes "Not Enough Bandwidth")
    ∷ (454, codes "Session Not Found")
    ∷ (455, codes "Method Not Valid In This State")
    ∷ (456, codes "Header Field Not Valid for Resource")
    ∷ (457, codes "Invalid Range")
    ∷ (458, codes "Parameter Is Read-Only")
    ∷ (459, codes "Aggregate Operation Not Allowed")
    ∷ (460, codes "Only Aggregate Operation Allowed")
    ∷ (461, codes "Unsupported Transport")
    ∷ (462, codes "Destination Unreachable")
    ∷ (463, codes "Destination Prohibited")
    ∷ (464, codes "Data Transport Not Ready Yet")
    ∷ (465, codes "Notification Reason Unknown")
    ∷ (466, codes "Key Management Error")
    ∷ (470, codes "Connection Authorization Required")
    ∷ (471, codes "Connection Credentials Not Accepted")
    ∷ (472, codes "Failure to Establish Secure Connection")
    ∷ (500, codes "Internal Server Error")
    ∷ (501, codes "Not Implemented")
    ∷ (502, codes "Bad Gateway")
    ∷ (503, codes "Service Unavailable")
    ∷ (504, codes "Gateway Timeout")
    ∷ (505, codes "RTSP Version Not Supported")
    ∷ (551, codes "Option Not Supported")
    ∷ (553, codes "Proxy Unavailable")
    ∷ []

unfoldable pub message_of : ℕ → List (ℕ × List ℕ) → List ℕ
message_of code [] = []
message_of code ((c, message) ∷ table) = if c == code then message else message_of code table
