-- ===== src/Server/Request.antt =====
-- webserver/request.c. What a function writes to the connection is a list, one element for each call of
-- `Rio_write`; `none` is an access outside a buffer, or a read of one that was not set. The lines that
-- `Rio_readlineb` gives for the connection and the files of the host are arguments.
pub mod Readfile
use operating_systems_lab.Base.{
  ℕ, zero, suc, ◌+◌, ◌%◌, ◌^◌, Bool, true, false, not, ◌&&◌, ◌||◌, Option, none, some, List, [],
  ◌∷◌, ◌++◌, ltb, leb, ◌==◌, if◌then◌else◌, length, same_name,
}
use operating_systems_lab.Base.Text.{codes, crlf, take, contains, strrchr, decimal, strcasecmp}
use operating_systems_lab.Server.Cache.{FileData}

abbrev pub Sent : Type 0
Sent = List (List ℕ)

-- `MAXLINE` and `MAXBUF`
abbrev pub maxline : ℕ
maxline = 8192

abbrev pub maxbuf : ℕ
maxbuf = 8192

-- The sum of the bytes as an `unsigned int`
abbrev pub csum_from : (csum : ℕ) → List ℕ → ℕ
csum_from csum [] = csum
csum_from csum (c ∷ s) = csum_from ((csum + c) % 2 ^ 32) s

-- The page of an error. Each `sprintf` of the source appends to it.
unfoldable pub error_body : (cause errnum shortmsg longmsg : List ℕ) → List ℕ
error_body cause errnum shortmsg longmsg =
    codes "<html><title>OS Web Server Error</title>"
    ++ codes "<body bgcolor=fffff>"
    ++ crlf
    ++ codes "<p>"
    ++ errnum
    ++ codes ": "
    ++ shortmsg
    ++ codes "</p>"
    ++ crlf
    ++ codes "<p>"
    ++ longmsg
    ++ codes ": "
    ++ cause
    ++ codes "</p>"
    ++ crlf
    ++ codes "</body></html>"
    ++ crlf

-- The page must fit `body`, with a final 0.
unfoldable pub request_error : (cause errnum shortmsg longmsg : List ℕ) → Option Sent
request_error cause errnum shortmsg longmsg =
    let body = error_body cause errnum shortmsg longmsg in
    if ltb (length body) maxbuf
    then some (
        (codes "HTTP/1.0 " ++ errnum ++ codes " " ++ shortmsg ++ crlf)
        ∷ (codes "Content-Type: text/html" ++ crlf)
        ∷ (codes "Content-Length: " ++ decimal (length body) ++ crlf)
        ∷ (codes "Content-Csum: " ++ decimal (csum_from 0 body) ++ crlf ++ crlf)
        ∷ body
        ∷ [])
    else none

abbrev pub is_space : ℕ → Bool
is_space c = c == 32 || (leb 9 c && leb c 13)

-- The words that `sscanf` reads by `%s`
abbrev pub words_from : (word : List ℕ) → List ℕ → List (List ℕ)
words_from [] [] = []
words_from (c ∷ w) [] = (c ∷ w) ∷ []
words_from [] (d ∷ s) = if is_space d then words_from [] s else words_from (d ∷ []) s
words_from (c ∷ w) (d ∷ s) =
    if is_space d then (c ∷ w) ∷ words_from [] s else words_from ((c ∷ w) ++ (d ∷ [])) s

-- Up to an empty line. At the end of the input the source goes on for ever.
unfoldable pub request_read_headers : (lines : List (List ℕ)) → Option (List (List ℕ))
request_read_headers [] = none
request_read_headers (line ∷ lines) = elim (same_name line crlf) [
  | true ↦ some lines
  | false ↦ request_read_headers lines
]

unfoldable pub request_parse_uri : (uri : List ℕ) → (max : ℕ) → List ℕ
request_parse_uri uri zero = []
request_parse_uri uri (suc n) = take n (codes "./" ++ uri)

abbrev pub request_get_file_type : (filename : List ℕ) → List ℕ
request_get_file_type filename =
    if contains (codes ".html") filename
    then codes "text/html"
    else if contains (codes ".gif") filename
    then codes "image/gif"
    else if contains (codes ".jpg") filename
    then codes "image/jpeg"
    else codes "text/plain"

-- `request_init`: null, with what was sent, or the data of the request. A refused request is closed.
pub data Init : Type 0 where
  refused : Sent → Init
  accepted : FileData → Init
  undefined : Init
  endless : Init

abbrev pub refuse_method : Option Sent → Init
refuse_method none = undefined
refuse_method (some sent) = refused sent

unfoldable pub init_get : (uri : List ℕ) → (lines : Option (List (List ℕ))) → Init
unfolding request_parse_uri
init_get uri none = endless
init_get uri (some lines) =
    accepted (record { file_name = request_parse_uri uri maxline; file_buf = []; file_size = 0 })

-- With the words of the first line. A request without an address leaves `uri` unset.
unfoldable pub init_words : (words lines : List (List ℕ)) → Init
unfolding request_read_headers init_get
init_words [] lines = undefined
init_words (method ∷ words) lines = elim (strcasecmp method (codes "GET")) [
  | false ↦ refuse_method (
      request_error method (codes "501") (codes "Not Implemented")
        (codes "OS Web Server does not implement this method"))
  | true ↦ elim words [ [] ↦ undefined | uri ∷ rest ↦ init_get uri (request_read_headers lines) ]
]

unfoldable pub request_init : (lines : List (List ℕ)) → Init
unfolding init_words
request_init [] = undefined
request_init (line ∷ lines) = init_words (words_from [] line) lines

-- What `stat` gives, and the bytes that are read from the file.
pub record Stat : Type 0 where
  pub is_regular : Bool
  pub user_reads : Bool
  pub contents : List ℕ

-- The result of `request_readfile`, the data behind it and what it sent
pub record Read : Type 0 where
  pub ret : Bool
  pub data_after : FileData
  pub sent : Sent

unfoldable pub refuse : FileData → (errnum shortmsg longmsg : List ℕ) → Option Read
refuse data_of errnum shortmsg longmsg =
    elim (request_error data_of.file_name errnum shortmsg longmsg) [
      | none ↦ none
      | some sent ↦ some (record { ret = false; data_after = data_of; sent = sent })
    ]

abbrev pub is_absolute : List ℕ → Bool
is_absolute [] = false
is_absolute (c ∷ s) = c == 47

-- `strcmp(ext, ".c") == 0` or `".h"`, for the part from the last point on
abbrev pub is_source : Option (List ℕ) → Bool
is_source none = false
is_source (some ext) = same_name ext (codes ".c") || same_name ext (codes ".h")

-- `data->file_size = sbuf.st_size` keeps the low 32 bits as an `int`. As many bytes are read, none of
-- an empty file; `Malloc` has no memory for a negative size.
unfoldable pub read_contents : FileData → Stat → Option Read
read_contents data_of st =
    let size = length st.contents % 2 ^ 32 in
    if ltb size (2 ^ 31)
    then some (record {
      ret = true;
      data_after = record data_of { file_buf = take size st.contents; file_size = size };
      sent = [];
    })
    else none

unfoldable pub read_found : FileData → Option Stat → Option Read
unfolding read_contents
read_found data_of none =
    refuse data_of (codes "404") (codes "Not found")
      (codes "OS Web Server could not find this file")
read_found data_of (some st) = elim (not st.is_regular || not st.user_reads) [
  | true ↦
      refuse data_of (codes "403") (codes "Forbidden")
        (codes "OS Web Server could not read this file")
  | false ↦ read_contents data_of st
]

unfoldable pub request_readfile : (disk : List ℕ → Option Stat) → FileData → Option Read
unfolding read_found
request_readfile disk data_of = elim (is_absolute data_of.file_name) [
  | true ↦
      refuse data_of (codes "404") (codes "Not found")
        (codes "OS Web Server doesn't serve files with absolute paths")
  | false ↦ elim (contains (codes "..") data_of.file_name) [
    | true ↦
        refuse data_of (codes "404") (codes "Not found")
          (codes "OS Web Server doesn't serve files with .. in the path")
    | false ↦ elim (is_source (strrchr 46 data_of.file_name)) [
      | true ↦
          refuse data_of (codes "404") (codes "Not found")
            (codes "OS Web Server doesn't serve C or header files ")
      | false ↦ read_found data_of (disk data_of.file_name)
    ]
  ]
]

-- The header, and the bytes of the file if there are any. Its processing has no effect.
unfoldable pub request_sendfile : FileData → Sent
request_sendfile data_of =
    (codes "HTTP/1.0 200 OK"
      ++ crlf
      ++ codes "Server: OS Web Server"
      ++ crlf
      ++ codes "Content-Type: "
      ++ request_get_file_type data_of.file_name
      ++ crlf
      ++ codes "Content-Length: "
      ++ decimal data_of.file_size
      ++ crlf
      ++ codes "Content-Csum: "
      ++ decimal (csum_from 0 data_of.file_buf)
      ++ crlf
      ++ crlf)
    ∷ (if ltb 0 data_of.file_size then data_of.file_buf ∷ [] else [])
