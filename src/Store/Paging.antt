-- ===== src/Store/Paging.antt =====
-- What one listing returns, when the database answers a query with a window of an ordered table.
use dcm_policy_manager.Prelude.{
  ℕ, ◌+◌, ◌≤◌, ◌<◌, String, List, ◌≡◌, ◌≢◌, arith, none, some, ok, length, take, drop, length-take,
  take-all, take-take, ne→eq_false,
}
use dcm_policy_manager.Prelude.Int.{pos}
use dcm_policy_manager.Policy.{Policy, PolicyListOptions}
use dcm_policy_manager.Store.{
  Gorm, Where, page_of, list, list_query, page_size, offset_of, offset_of_token,
}

-- What is asked of the database: `table` is the ordered table that a listing's conditions and order
-- ask for, of which a query with a limit and an offset returns the rows after `offset`, at most
-- `limit`.
pub record IsTable {D : Type 0} (gorm : Gorm D) (d : D) (wheres : List Where) (order : String)
    (table : List Policy) : Type 0 where
  pub window :
      (limit offset : ℕ)
      → gorm.find d
          (record { wheres = wheres; order = order; limit = pos limit; offset = pos offset })
        ≡ ok (take limit (drop offset table))

-- What is asked of base64 and strconv: an offset is read from its token, which is not empty.
pub record IsTokenCodec {D : Type 0} (gorm : Gorm D) : Type 0 where
  pub decodes :
      (offset : ℕ) → gorm.decode_offset (gorm.encode_offset (pos offset)) ≡ some (pos offset)
  pub not_empty : (offset : ℕ) → gorm.encode_offset (pos offset) ≢ ""

module _ {D : Type 0} (gorm : Gorm D) where
  -- the last page
  pub page_of-last :
      (size offset : ℕ) (rows : List Policy)
      → length rows ≤ size
      → page_of gorm size (pos offset) (take (size + 1) rows)
        ≡ record { policies = rows; next_page_token = "" }
  unfolding page_of
  page_of-last size offset rows h =
      rw (take-all (size + 1) rows (omega (arith, h))) (ground (arith, h))

  -- a page before the last
  pub page_of-more :
      (size offset : ℕ) (rows : List Policy)
      → size < length rows
      → page_of gorm size (pos offset) (take (size + 1) rows) ≡ record {
        policies = take size rows;
        next_page_token = gorm.encode_offset (pos (offset + size));
      }
  unfolding page_of
  page_of-more size offset rows h =
      ground (arith, h, length-take (size + 1) rows, take-take size rows)

  -- A listing returns the page of the table that its token and its page size ask for.
  pub list-page_of :
      (d : D) (opts : PolicyListOptions) (table : List Policy) (offset : ℕ)
      → IsTable gorm d
          (list_query gorm (some opts)).wheres
          (list_query gorm (some opts)).order
          table
      → offset_of gorm (some opts) ≡ pos offset
      → list gorm d (some opts)
        ≡ ok (
            page_of gorm
              (page_size gorm (some opts))
              (pos offset)
              (take (page_size gorm (some opts) + 1) (drop offset table)))
  unfolding list list_query
  list-page_of d opts table offset ordered e =
      ground (arith, e, ordered.window (page_size gorm (some opts) + 1) offset)

  pub offset_of-encoded :
      IsTokenCodec gorm
      → (opts : PolicyListOptions) (offset : ℕ)
      → opts.page_token ≡ some (gorm.encode_offset (pos offset))
      → offset_of gorm (some opts) ≡ pos offset
  unfolding offset_of offset_of_token
  offset_of-encoded codec opts offset e = rw (
    e,
    ne→eq_false (gorm.encode_offset (pos offset)) "" (codec.not_empty offset),
    codec.decodes offset,
  )

  pub offset_of-none :
      (opts : PolicyListOptions) → opts.page_token ≡ none → offset_of gorm (some opts) ≡ pos 0
  unfolding offset_of offset_of_token
  offset_of-none opts e = rw e
