-- ===== src/Tsig.antt =====
-- goddns's own keyring, internal/tsig/tsig.go: the keys, how one is found, and how they are written.
-- The regular expressions that read a key file are a parameter of those who call `LoadFile`.
use goddns.Base.{List, [], ◌∷◌, ◌++◌, Option, if◌then◌else◌, is_empty, find?}
use goddns.Base.Strings.{Bytes, bytes, str_eq, trim_suffix}

-- `tsig.Key`.
pub record HeldKey : Type 0 where
  pub name : Bytes
  pub algo : Bytes
  pub secret : Bytes

-- `Find`.
unfoldable pub find_key : List HeldKey → Bytes → Option HeldKey
unfolding str_eq trim_suffix
find_key keys name =
    find? (λ k. str_eq (trim_suffix k.name (bytes ".")) (trim_suffix name (bytes "."))) keys

abbrev quote : Bytes
quote = b'"' ∷ []

abbrev line_end : Bytes
line_end = 10 ∷ []

abbrev render_key : HeldKey → Bytes
render_key k =
    bytes "key "
    ++ (quote
        ++ (trim_suffix k.name (bytes ".")
            ++ (quote
                ++ (bytes " {"
                    ++ (10 ∷ 9 ∷ bytes "algorithm "
                        ++ ((if is_empty k.algo then bytes "hmac-sha256" else k.algo)
                            ++ (59 ∷ 10 ∷ 9 ∷ bytes "secret "
                                ++ (quote
                                    ++ (k.secret
                                        ++ (quote ++ (59 ∷ 10 ∷ 125 ∷ 59 ∷ 10 ∷ [])))))))))))

render_keys : List HeldKey → Bytes
unfolding trim_suffix
render_keys [] = []
render_keys (k ∷ keys) = render_key k ++ render_keys keys

-- `Render`.
unfoldable pub render : List HeldKey → Bytes
unfolding render_keys
render keys =
    bytes "// Managed by goddns (rotate with `goddns rotate-key`). Included once by named.conf."
    ++ (line_end ++ render_keys keys)
