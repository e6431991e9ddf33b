-- ===== src/Sha1/Tests.antt =====
-- The digest of the standard's first example.
use obmafs.Prelude.{◌≡◌, refl, [], ◌∷◌, replicate}
use obmafs.Sha1.{
  Sha1Ctx, initial, rotl32, be32, put_be32, put_be64, load_words, expand_words, mixed, round,
  round_loop, transform, sha1_init, copy_in, keep_rest, block_loop, fill_buffer, sha1_update,
  pad_loop, put_state, sha1_final, sha1_hash,
}

abbrev unused : Sha1Ctx
unused = record { state = initial; count = 0; buffer = replicate 64 0 }

abc_digest :
    sha1_hash unused (0x61 ∷ 0x62 ∷ 0x63 ∷ [])
    ≡ 0xA9 ∷ 0x99 ∷ 0x3E ∷ 0x36 ∷ 0x47 ∷ 0x06 ∷ 0x81 ∷ 0x6A ∷ 0xBA ∷ 0x3E ∷ 0x25 ∷ 0x71 ∷ 0x78
      ∷ 0x50 ∷ 0xC2 ∷ 0x6C ∷ 0x9C ∷ 0xD0 ∷ 0xD8 ∷ 0x9D ∷ []
unfolding rotl32 be32 put_be32 put_be64 load_words expand_words mixed round round_loop transform
    initial sha1_init copy_in keep_rest block_loop fill_buffer sha1_update pad_loop put_state
    sha1_final sha1_hash
abc_digest = refl
