-- ===== src/Client/Bodies.antt =====
-- body.go: request bodies and how they are prepared. `E` is the type of errors from elsewhere. What
-- json.Marshal, os.Stat, os.Open, a reader and a caller's opener give are arguments of the bodies.
use busylib_go.Prelude.{
  ℕ, Bool, true, false, [], ◌∷◌, Option, none, some, Result, ok, err, ◌==◌, if◌then◌else◌, length,
}
use busylib_go.Prelude.Int.{ℤ, pos, negsuc}
use busylib_go.Prelude.Bytes.{Bytes, bytes}
use busylib_go.Usb.Command.{Text}

pub data BodyError (E : Type 0) : Type 0 where
  reader_nil opener_nil path_missing is_directory nothing_wrapped consumed : BodyError E
  failed : E → BodyError E

-- What opening gives, after as many openings before: no reader, a reader of the bytes, or an error.
abbrev pub Opener : Type 0 → Type 0
Opener E = ℕ → Result (BodyError E) (Option Bytes)

pub record PreparedBody (E : Type 0) : Type 0 where
  pub content_type : Text
  pub content_length : ℤ
  pub repeatable : Bool
  pub open_body : Opener E

-- os.Stat: the size, and whether it is a directory.
pub record FileInfo : Type 0 where
  pub size : ℤ
  pub directory : Bool

-- A progress body may wrap nothing; its callback may be nil.
pub data Body (E : Type 0) : Type 0 where
  json_body : Result E Bytes → Body E
  bytes_body : Bytes → Text → Body E
  reader_body : Option Bytes → Text → Body E
  repeatable_body : Text → ℤ → Option (Opener E) → Body E
  file_body : (path : Text) → Text → Result E FileInfo → Opener E → Body E
  progress_body : Body E → (has_callback : Bool) → Body E
  progress_of_nothing : Body E

module _ {E : Type 0} where
  abbrev pub prepare_bytes : Bytes → Text → PreparedBody E
  prepare_bytes content content_type = record {
    content_type = content_type;
    content_length = pos (length content);
    repeatable = true;
    open_body = λ _. ok (some content);
  }

  abbrev pub prepare_json : Result E Bytes → Result (BodyError E) (PreparedBody E)
  prepare_json (err e) = err (failed e)
  prepare_json (ok content) = ok (prepare_bytes content (bytes "application/json; charset=utf-8"))

  -- The reader is given once.
  abbrev pub open_once : Bytes → Opener E
  open_once content n = if n == 0 then ok (some content) else err consumed

  abbrev pub prepare_reader : Option Bytes → Text → Result (BodyError E) (PreparedBody E)
  prepare_reader none content_type = err reader_nil
  prepare_reader (some content) content_type = ok (record {
    content_type = content_type;
    content_length = negsuc 0;
    repeatable = false;
    open_body = open_once content;
  })

  abbrev pub prepare_repeatable :
      Text → ℤ → Option (Opener E) → Result (BodyError E) (PreparedBody E)
  prepare_repeatable content_type content_length none = err opener_nil
  prepare_repeatable content_type content_length (some opener) = ok (record {
    content_type = content_type;
    content_length = content_length;
    repeatable = true;
    open_body = opener;
  })

  abbrev pub prepare_file :
      Text → Text → Result E FileInfo → Opener E → Result (BodyError E) (PreparedBody E)
  prepare_file [] content_type info opener = err path_missing
  prepare_file (c ∷ path) content_type (err e) opener = err (failed e)
  prepare_file (c ∷ path) content_type (ok info) opener =
      if info.directory
      then err is_directory
      else ok (record {
        content_type = content_type;
        content_length = info.size;
        repeatable = true;
        open_body = opener;
      })

  -- A progress body reads as the body that it wraps does.
  unfoldable pub prepare_body : Body E → Result (BodyError E) (PreparedBody E)
  prepare_body (json_body marshalled) = prepare_json marshalled
  prepare_body (bytes_body content content_type) = ok (prepare_bytes content content_type)
  prepare_body (reader_body reader content_type) = prepare_reader reader content_type
  prepare_body (repeatable_body content_type content_length opener) =
      prepare_repeatable content_type content_length opener
  prepare_body (file_body path content_type info opener) =
      prepare_file path content_type info opener
  prepare_body (progress_body body has_callback) = prepare_body body
  prepare_body progress_of_nothing = err nothing_wrapped

  abbrev pub empty_prepared_body : PreparedBody E
  empty_prepared_body = record {
    content_type = [];
    content_length = pos 0;
    repeatable = true;
    open_body = λ _. ok none;
  }
