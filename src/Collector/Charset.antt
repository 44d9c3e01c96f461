-- ===== src/Collector/Charset.antt =====
-- fixCharset of response.go. The detection and the decoding of charsets are parameters.
use tobey.Common.{
  String, Bool, true, false, not, ◌&&◌, ◌||◌, Option, none, some, if◌then◌else◌, ◌==◌, string_eq,
  ◌≡◌, refl, Returns, Bool-cases, inl, inr, arith,
}
use tobey.Common.Text.{◌<>◌, contains}
use tobey.Headers.{get}
use tobey.Visitor.{Response}

pub record CharsetLib : Type 0 where
  pub to_lower : String → String
  -- chardet's DetectBest: a charset.
  pub detect : String → Option String
  -- encodeBytes, of a content type and a body
  pub encode_bytes : String → String → Option String

module _ (x : CharsetLib) where
  -- MIME types that hold no text.
  unfoldable pub is_binary : String → Bool
  unfolding contains
  is_binary content_type =
      contains content_type "image/"
      || contains content_type "video/"
      || contains content_type "audio/"
      || contains content_type "font/"

  abbrev pub with_encoded : Response → Option String → Option Response
  with_encoded res none = none
  with_encoded res (some body) = some (record res { body = body })

  abbrev pub convert : String → Response → Option Response
  convert content_type res =
      if contains content_type "utf-8" || contains content_type "utf8"
      then some res
      else with_encoded res (x.encode_bytes content_type res.body)

  abbrev detected : Option String → Response → Option Response
  detected none res = none
  detected (some charset) res = convert ("text/plain; charset=" <> charset) res

  abbrev or_detected : String → Bool → Response → Option Response
  or_detected content_type detect_charset res =
      if contains content_type "charset"
      then convert content_type res
      else if not detect_charset
      then some res
      else detected (x.detect res.body) res

  abbrev by_type : String → Bool → Response → Option Response
  by_type content_type detect_charset res =
      if is_binary content_type then some res else or_detected content_type detect_charset res

  -- (*Response).fixCharset: the response behind it, or `none` for an error.
  unfoldable pub fix_charset : Bool → String → Response → Option Response
  unfolding is_binary contains get
  fix_charset detect_charset default_encoding res =
      if res.body == ""
      then some res
      else if not (default_encoding == "")
      then with_encoded res (x.encode_bytes ("text/plain; charset=" <> default_encoding) res.body)
      else by_type (x.to_lower (get "Content-Type" res.headers)) detect_charset res

  -- As for the responses of a collector that neither detects charsets nor was told one, which is how
  -- NewCollector leaves it: a body is decoded exactly if there is one, its type may be text and names a
  -- charset, and that is not UTF-8; every other response stays as it was, without an error.
  pub fix_charset_declared :
      (res : Response)
      → fix_charset false "" res ≡ (
          let content_type = x.to_lower (get "Content-Type" res.headers) in
          if not (res.body == "")
            && not (is_binary content_type)
            && contains content_type "charset"
            && not (contains content_type "utf-8" || contains content_type "utf8")
          then with_encoded res (x.encode_bytes content_type res.body)
          else some res)
  unfolding fix_charset
  fix_charset_declared res = ground arith

  -- The response is the same in all but its body.
  abbrev BodyOnly : Response → Response → Type 0
  BodyOnly res r = record r { body = res.body } ≡ res

  with_encoded-BodyOnly :
      (res : Response) (m : Option String) → Returns (BodyOnly res) (with_encoded res m)
  with_encoded-BodyOnly res none = tt
  with_encoded-BodyOnly res (some body) = refl

  either :
      (res : Response) (b : Bool) (m n : Option Response)
      → Returns (BodyOnly res) m
      → Returns (BodyOnly res) n
      → Returns (BodyOnly res) (if b then m else n)
  either res true m n h k = h
  either res false m n h k = k

  convert-BodyOnly :
      (content_type : String) (res : Response) → Returns (BodyOnly res) (convert content_type res)
  convert-BodyOnly content_type res =
      either res (contains content_type "utf-8" || contains content_type "utf8") (some res)
        (with_encoded res (x.encode_bytes content_type res.body)) refl
        (with_encoded-BodyOnly res (x.encode_bytes content_type res.body))

  detected-BodyOnly :
      (charset : Option String) (res : Response) → Returns (BodyOnly res) (detected charset res)
  detected-BodyOnly none res = tt
  detected-BodyOnly (some charset) res = convert-BodyOnly ("text/plain; charset=" <> charset) res

  or_detected-BodyOnly :
      (content_type : String) (detect_charset : Bool) (res : Response)
      → Returns (BodyOnly res) (or_detected content_type detect_charset res)
  or_detected-BodyOnly content_type true res =
      either res (contains content_type "charset") (convert content_type res)
        (detected (x.detect res.body) res) (convert-BodyOnly content_type res)
        (detected-BodyOnly (x.detect res.body) res)
  or_detected-BodyOnly content_type false res =
      either res (contains content_type "charset") (convert content_type res) (some res)
        (convert-BodyOnly content_type res) refl

  by_type-BodyOnly :
      (content_type : String) (detect_charset : Bool) (res : Response)
      → Returns (BodyOnly res) (by_type content_type detect_charset res)
  by_type-BodyOnly content_type detect_charset res =
      either res (is_binary content_type) (some res) (or_detected content_type detect_charset res)
        refl (or_detected-BodyOnly content_type detect_charset res)

  -- Nothing but the body of a response is ever changed.
  pub fix_charset_body :
      (detect_charset : Bool) (encoding : String) (res : Response)
      → Returns (λ r. record r { body = res.body } ≡ res) (fix_charset detect_charset encoding res)
  unfolding fix_charset
  fix_charset_body detect_charset encoding res = elim (Bool-cases (res.body == "")) [
    | inl empty ↦ rw (empty, fix_charset) refl
    | inr some_body ↦ elim (Bool-cases (encoding == "")) [
      | inl undeclared ↦
          rw (some_body, undeclared, fix_charset)
            (by_type-BodyOnly (x.to_lower (get "Content-Type" res.headers)) detect_charset res)
      | inr declared ↦
          rw (some_body, declared, fix_charset)
            (with_encoded-BodyOnly res
              (x.encode_bytes ("text/plain; charset=" <> encoding) res.body))
    ]
  ]
