-- ===== src/Alloc.antt =====
-- Block allocation over the bitmap: `obmafs3_alloc_blocks`, `obmafs3_alloc_block` and
-- `obmafs3_alloc_inode_id` of src/lib/btree.c, `obmafs3_free_blocks` and `obmafs3_free_block` of
-- src/lib/bitmap.c. `bitmap_lock` makes each of them one step.
pub mod Safety
pub mod History
use obmafs.Prelude.{ℕ, ◌+◌, ltb, if◌then◌else◌, u64}
use obmafs.Context.{Ctx, Result, ok, err}
use obmafs.Bitmap.{bitmap_set, bitmap_clear}
use obmafs.Bitmap.Search.{find_free}

-- `if(*start_lba + count > next_free_lba) next_free_lba = *start_lba + count`
unfoldable pub raise_hint : Ctx → ℕ → Ctx
raise_hint ctx end = if ltb ctx.next_free_lba end then record ctx { next_free_lba = end } else ctx

unfoldable pub take_run : Ctx → ℕ → Result ℕ → Ctx × Result ℕ
take_run ctx count (err e) = (ctx, err e)
take_run ctx count (ok start_lba) =
    (raise_hint (bitmap_set ctx start_lba count) (u64 (start_lba + count)), ok start_lba)

unfoldable pub alloc_blocks : (ℕ → ℕ) → Ctx → ℕ → Ctx × Result ℕ
alloc_blocks beyond ctx count = take_run ctx count (find_free ctx beyond count)

unfoldable pub alloc_block : (ℕ → ℕ) → Ctx → Ctx × Result ℕ
alloc_block beyond ctx = alloc_blocks beyond ctx 1

unfoldable pub free_blocks : Ctx → ℕ → ℕ → Ctx × Result (Unit {0})
free_blocks ctx lba count = (bitmap_clear ctx lba count, ok tt)

unfoldable pub free_block : Ctx → ℕ → Ctx × Result (Unit {0})
free_block ctx lba = free_blocks ctx lba 1

-- The new context and the inode ID handed out.
pub alloc_inode_id : Ctx → Ctx × ℕ
alloc_inode_id ctx =
    let sb = ctx.sb in
    (record ctx { sb = record sb { next_inode_id = u64 (sb.next_inode_id + 1) } }, sb.next_inode_id)
