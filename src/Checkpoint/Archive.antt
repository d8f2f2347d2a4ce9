-- ===== src/Checkpoint/Archive.antt =====
-- The zip archives that `torch.save` writes: for each entry a local header, padding and the data;
-- then the central directory and its end. They are what `PtLoader::parse_zip` of
-- dee.cpp/src/pt_loader.cpp is compared with.
use dee.Prelude.{ℕ, ◌+◌, ◌^◌, ◌<◌, List, [], ◌∷◌, ◌++◌, length}
use dee.Json.{Text}
use dee.Bytes.{Bytes}
use dee.Bytes.Words.{le16, le32}

pub record Entry : Type 0 where
  pub name : Text
  pub method : ℕ
  pub padding : Bytes
  pub packed : Bytes
  pub crc : ℕ
  pub plain_size : ℕ

unfoldable pub local_header : Entry → Bytes
unfolding le16 le32
local_header e =
    le32 0x04034b50
    ++ (le16 20
        ++ (le16 0
            ++ (le16 e.method
                ++ (le32 0
                    ++ (le32 e.crc
                        ++ (le32 (length e.packed)
                            ++ (le32 e.plain_size
                                ++ (le16 (length e.name) ++ le16 (length e.padding)))))))))

unfoldable pub central_header : Entry → ℕ → Bytes
unfolding le16 le32
central_header e off =
    le32 0x02014b50
    ++ (le16 20
        ++ (le16 20
            ++ (le16 0
                ++ (le16 e.method
                    ++ (le32 0
                        ++ (le32 e.crc
                            ++ (le32 (length e.packed)
                                ++ (le32 e.plain_size
                                    ++ (le16 (length e.name)
                                        ++ (le16 0
                                            ++ (le16 0
                                                ++ (le16 0
                                                    ++ (le16 0 ++ (le32 0 ++ le32 off))))))))))))))

unfoldable pub end_record : ℕ → ℕ → ℕ → Bytes
unfolding le16 le32
end_record count size off =
    le32 0x06054b50
    ++ (le16 0 ++ (le16 0 ++ (le16 count ++ (le16 count ++ (le32 size ++ (le32 off ++ le16 0))))))

-- An entry without its header in the directory.
unfoldable pub local_part : Entry → Bytes
local_part e = local_header e ++ (e.name ++ (e.padding ++ e.packed))

unfoldable pub locals : List Entry → Bytes
locals [] = []
locals (e ∷ es) = local_part e ++ locals es

-- The headers of entries, the first of which stands at `off`.
unfoldable pub directory : ℕ → List Entry → Bytes
directory off [] = []
directory off (e ∷ es) =
    central_header e off ++ (e.name ++ directory (off + length (local_part e)) es)

unfoldable pub archive : List Entry → Bytes
archive es =
    locals es
    ++ (directory 0 es ++ end_record (length es) (length (directory 0 es)) (length (locals es)))

-- The lengths fit the fields of the headers.
pub record Fits (e : Entry) : Type 0 where
  pub method_fits : e.method < 2 ^ 16
  pub name_fits : length e.name < 2 ^ 16
  pub padding_fits : length e.padding < 2 ^ 16
