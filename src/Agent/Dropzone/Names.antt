-- ===== src/Agent/Dropzone/Names.antt =====
-- The name under which an upload is committed.
use veyport.Base.{ℕ, ◌≡◌, ◌≢◌, ◌==◌, Bool, false, [], ◌∷◌, ◌++◌, arith, any, any-append}
use veyport.Agent.Dropzone.{Bytes, strip_trailing, after_last, base, sanitize_filename}

abbrev pub is_slash : ℕ → Bool
is_slash c = c == 47

after_last-slash :
    (seen cs : Bytes) → any is_slash seen ≡ false → any is_slash (after_last seen cs) ≡ false
unfolding after_last any
after_last-slash seen [] h = h
after_last-slash seen (c ∷ cs) h = ground (
  arith,
  after_last-slash [] cs,
  after_last-slash (seen ++ c ∷ []) cs,
  any-append is_slash seen (c ∷ []),
)

-- Whatever name the hub sends, the sanitised one stays in the directory: it holds no slash and is
-- neither "." nor "..".
pub sanitize_filename_lem :
    (name : Bytes)
    → (any is_slash (sanitize_filename name) ≡ false)
      × ((sanitize_filename name ≢ 46 ∷ []) × (sanitize_filename name ≢ 46 ∷ 46 ∷ []))
unfolding sanitize_filename base any
sanitize_filename_lem [] = ground arith
sanitize_filename_lem (c ∷ cs) =
    let last = after_last [] (strip_trailing (c ∷ cs)) in
    ground (arith, after_last-slash [] (strip_trailing (c ∷ cs)))
