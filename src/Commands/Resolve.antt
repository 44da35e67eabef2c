-- ===== src/Commands/Resolve.antt =====
-- firmware/core/commands.c: the search for a file by its hash ends.
use waxwing.Common.{
  ℕ, zero, suc, ◌+◌, ◌^◌, ◌≤◌, ◌<◌, ◌≡◌, ◌≢◌, arith, List, ◌==◌, true, false, leb, ◌||◌,
}
use waxwing.Common.{some, length, Bool-cases, Option-cases, inl, inr}
use waxwing.Common.Int.{ℤ, pos, negsuc}
use waxwing.Common.Bytes.{Bytes}
use waxwing.Filestore.{Filestore}
use waxwing.Commands.{
  FileEntry, UserFiles, Resolved, found, missing, out_of_fuel, find_hash, resolve_loop,
}

-- What `next_offset` can hold: it is an `int`.
pub record IsListing {fs : Filestore} (files : UserFiles fs) : Type 0 where
  pub next_int :
      (disk : fs.Disk) (offset : ℤ) (limit : ℕ) (entries : List FileEntry) (next : ℕ)
      → files.fs_list disk offset limit ≡ some (entries, pos next)
      → next < 2 ^ 31

module _ {fs : Filestore} (files : UserFiles fs) where
  resolve_loop-ends :
      (fuel : ℕ) (disk : fs.Disk) (hash : Bytes) (offset : ℕ)
      → IsListing files
      → 2 ^ 31 ≤ fuel + offset
      → offset < 2 ^ 31
      → resolve_loop files fuel disk hash offset ≢ out_of_fuel
  unfolding resolve_loop
  resolve_loop-ends zero disk hash offset ok enough lt = absurd (omega arith)
  resolve_loop-ends (suc fuel) disk hash offset ok enough lt =
      elim (Option-cases (files.fs_list disk (pos offset) 16)) [
        | inl e ↦ rw (resolve_loop, e) (λ h. ends h)
        | inr ((entries, next_offset), e) ↦ elim (Option-cases (find_hash entries hash)) [
          | inr (name, f) ↦ rw (resolve_loop, e, f) (λ h. found_ends h)
          | inl f ↦
              rw (resolve_loop, e, f)
                (next_page entries next_offset e
                  (λ next less more. resolve_loop-ends fuel disk hash next ok (omega arith) less))
        ]
      ]
    where
      ends : missing ≢ out_of_fuel
      ends h = cc

      found_ends : {name : Bytes} → found name ≢ out_of_fuel
      found_ends h = cc

      next_page :
          (entries : List FileEntry) (next_offset : ℤ)
          → files.fs_list disk (pos offset) 16 ≡ some (entries, next_offset)
          → ((next : ℕ)
              → next < 2 ^ 31
              → offset < next
              → resolve_loop files fuel disk hash next ≢ out_of_fuel)
          → (elim next_offset as (λ _. Resolved) [
            | negsuc n ↦ missing
            | pos next ↦ elim (leb next offset || (length entries == 0)) as (λ _. Resolved) [
              | true ↦ missing
              | false ↦ resolve_loop files fuel disk hash next
            ]
          ])
            ≢ out_of_fuel
      next_page entries (negsuc n) e rest = λ h. ends h
      next_page entries (pos next) e rest =
          elim (Bool-cases (leb next offset || (length entries == 0))) [
            | inl g ↦ rw g (λ h. ends h)
            | inr g ↦
                let less : next < 2 ^ 31 = ok.next_int disk (pos offset) 16 entries next e in
                rw g (rest next less (ground arith))
          ]

  -- If the listing's `next_offset` is an `int`, the search for a hash, with 2^31 rounds allowed, ends by finding a name or by reaching the end or an error of the listing, and never for want of rounds.
  pub resolve_loop-terminates :
      (disk : fs.Disk) (hash : Bytes)
      → IsListing files
      → resolve_loop files (2 ^ 31) disk hash 0 ≢ out_of_fuel
  resolve_loop-terminates disk hash ok =
      resolve_loop-ends (2 ^ 31) disk hash 0 ok (omega arith) (omega arith)
