-- ===== src/FileUtil.antt =====
-- src/fileutil.c: the callback that reads the basis file. A file is the list of its bytes.
use librsync.Prelude.{ℕ, List, [], ◌≡◌, ◌≤◌, refl, arith, length, take, drop, ◌==◌, if◌then◌else◌}
use librsync.Prelude.{length-take, length-drop, ne→==}
use librsync.Prelude.Slices.{take-empty}
use librsync.Result.{done, input_ended}
use librsync.Patch.{CopyCb}
use librsync.Patch.Copying.{ReadsBasis}

-- `rs_file_copy_cb`, where `fseek` and `fread` succeed.
unfoldable pub file_copy_cb : List ℕ → CopyCb
file_copy_cb file pos len =
    let got = take len (drop pos file) in (if length got == 0 then input_ended else done, got)

-- rs_file_copy_cb on a file that can be read behaves as a patch job needs of its callback: within
-- the file it returns bytes from the position, one at least and no more than asked for, and at or
-- beyond the end it returns input_ended.
pub file_copy_cb-ReadsBasis : (file : List ℕ) → ReadsBasis file (file_copy_cb file)
unfolding file_copy_cb
file_copy_cb-ReadsBasis file = record {
  amount = λ pos len. len;
  within = λ pos len inside more.
      rw
        (ne→== (length (take len (drop pos file))) 0
          (omega (arith, length-take len (drop pos file), length-drop pos file)))
        refl;
  some_bytes = λ pos len inside more. more;
  not_more = λ pos len inside more. omega arith;
  beyond = λ pos len outside more. rw (ended pos len outside) refl;
}
  where
    ended : (pos len : ℕ) → length file ≤ pos → take len (drop pos file) ≡ []
    ended pos len outside = take-empty len (drop pos file) (omega (arith, length-drop pos file))
