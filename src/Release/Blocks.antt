-- ===== src/Release/Blocks.antt =====
-- The blocks of a parse tree are released exactly once each, and none is read after its release.
use gdbwire.Base.{◌≡◌, refl, List, [], ◌∷◌, ◌++◌, not, ◌&&◌, some, mem_byte}
use gdbwire.Release.{
  Address, Allocated, ResultAt, no_result, cstring_at, results_at, RecordAt, no_record, record_at,
  no_stream, stream_at, OobAt, no_oob, async_at, stream_record_at, VariantAt, oob_at,
  result_record_at, prompt_at, error_at, OutputAt, no_output, output_at, result_free, record_free,
  stream_free, oob_free, variant_free, output_free,
}
use gdbwire.Release.Order.{
  Releases, Releases-free, text_block, Releases-text, Releases-member, AreBlocks,
  Releases-AreBlocks,
}

-- The blocks of a tree.
abbrev pub result_blocks : ResultAt → List Address
result_blocks no_result = []
result_blocks (cstring_at a variable text next) =
    (text_block variable ++ (text_block text ++ (result_blocks next ++ []))) ++ (a ∷ [])
result_blocks (results_at a variable sub next) =
    (text_block variable ++ (result_blocks sub ++ (result_blocks next ++ []))) ++ (a ∷ [])

result_free-Releases : (r : ResultAt) → Releases (result_free r) (result_blocks r)
unfolding result_free
result_free-Releases no_result = record { runs = λ live fit. refl }
result_free-Releases (cstring_at a variable text next) =
    Releases-member a _ _ _ _ (Releases-text variable) (
      Releases-member a _ _ _ _ (Releases-text text)
        (Releases-member a _ _ _ [] (result_free-Releases next) (Releases-free a)))
result_free-Releases (results_at a variable sub next) =
    Releases-member a _ _ _ _ (Releases-text variable) (
      Releases-member a _ _ _ _ (result_free-Releases sub)
        (Releases-member a _ _ _ [] (result_free-Releases next) (Releases-free a)))

abbrev pub record_blocks : RecordAt → List Address
record_blocks no_record = []
record_blocks (record_at a token result) =
    (text_block token ++ (result_blocks result ++ [])) ++ (a ∷ [])

record_free-Releases : (r : RecordAt) → Releases (record_free r) (record_blocks r)
unfolding record_free
record_free-Releases no_record = record { runs = λ live fit. refl }
record_free-Releases (record_at a token result) =
    Releases-member a _ _ _ _ (Releases-text token)
      (Releases-member a _ _ _ [] (result_free-Releases result) (Releases-free a))

abbrev pub oob_blocks : OobAt → List Address
oob_blocks no_oob = []
oob_blocks (async_at a r) = (record_blocks r ++ []) ++ (a ∷ [])
oob_blocks (stream_record_at a no_stream) = a ∷ []
oob_blocks (stream_record_at a (stream_at b text)) =
    (((text_block text ++ []) ++ (b ∷ [])) ++ []) ++ (a ∷ [])

oob_free-Releases : (r : OobAt) → Releases (oob_free r) (oob_blocks r)
unfolding oob_free stream_free
oob_free-Releases no_oob = record { runs = λ live fit. refl }
oob_free-Releases (async_at a r) =
    Releases-member a _ _ _ [] (record_free-Releases r) (Releases-free a)
oob_free-Releases (stream_record_at a no_stream) =
    Releases-member a _ _ [] [] (record { runs = λ live fit. refl }) (Releases-free a)
oob_free-Releases (stream_record_at a (stream_at b text)) =
    Releases-member a _ _ _ [] (Releases-member b _ _ _ [] (Releases-text text) (Releases-free b))
      (Releases-free a)

abbrev pub variant_blocks : VariantAt → List Address
variant_blocks (oob_at r) = oob_blocks r
variant_blocks (result_record_at r) = record_blocks r
variant_blocks prompt_at = []
variant_blocks (error_at token) = text_block token

variant_free-Releases : (v : VariantAt) → Releases (variant_free v) (variant_blocks v)
unfolding variant_free
variant_free-Releases (oob_at r) = oob_free-Releases r
variant_free-Releases (result_record_at r) = record_free-Releases r
variant_free-Releases prompt_at = record { runs = λ live fit. refl }
variant_free-Releases (error_at token) = Releases-text token

abbrev pub output_blocks : OutputAt → List Address
output_blocks no_output = []
output_blocks (output_at a v line next) =
    (variant_blocks v ++ (text_block line ++ (output_blocks next ++ []))) ++ (a ∷ [])

output_free-Releases : (o : OutputAt) → Releases (output_free o) (output_blocks o)
unfolding output_free
output_free-Releases no_output = record { runs = λ live fit. refl }
output_free-Releases (output_at a v line next) =
    Releases-member a _ _ _ _ (variant_free-Releases v) (
      Releases-member a _ _ _ _ (Releases-text line)
        (Releases-member a _ _ _ [] (output_free-Releases next) (Releases-free a)))

-- Where the blocks of a list of outputs are allocated and no two of them are at one address, the
-- release of the list runs to its end: each block of it is released exactly once, no block is read
-- after its release, and every other block stays as it was.
pub output_free_lem :
    (o : OutputAt) (live : Allocated)
    → AreBlocks live (output_blocks o)
    → (live1 : Allocated) × (output_free o live ≡ some live1)
      × ((a : Address) → live1 a ≡ (live a && not (mem_byte a (output_blocks o))))
output_free_lem o live h =
    Releases-AreBlocks (output_free o) (output_blocks o) live (output_free-Releases o) h
