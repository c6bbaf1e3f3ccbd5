-- ===== src/Worker/Debug/Written.antt =====
-- What a verified write promises.
use jlink_mcp_v.Base.{false, ℕ, ◌+◌, ◌≤◌, List, length, ◌≡◌, inl, inr, refl, u64_mod, ap, sym, ◌∙◌}
use jlink_mcp_v.Domain.Error.{JlinkError, Result, ok, err, verify_failed}
use jlink_mcp_v.Domain.Memory.Write.{verify_memory_readback_cases}
use jlink_mcp_v.Worker.Gateway.{Gateway}
use jlink_mcp_v.Domain.Memory.Request.{WriteVerify, skip, readback}
use jlink_mcp_v.Worker.Debug.{
  readback_transport_failure, compared, verify_if_requested, after_write, write_verified,
}

module _ {G : Type 0} (gw : Gateway G) (address : ℕ) (bytes : List ℕ) where
  -- From the policy and the gateway's state before to what write_verified returns.
  pub data WriteEnd : WriteVerify → G → G × Result (Unit {0}) → Type 0 where
    not_written :
        {v : WriteVerify} {g g1 : G} {e : JlinkError}
        → gw.write_bytes address bytes g ≡ (g1, err e)
        → WriteEnd v g (g1, err e)
    written :
        {g g1 : G} → gw.write_bytes address bytes g ≡ (g1, ok tt) → WriteEnd skip g (g1, ok tt)
    verified :
        {g g1 g2 : G}
        → gw.write_bytes address bytes g ≡ (g1, ok tt)
        → gw.read_bytes address (length bytes) g1 ≡ (g2, ok bytes)
        → WriteEnd readback g (g2, ok tt)
    unverified :
        {g g1 g2 : G} {e : JlinkError}
        → gw.write_bytes address bytes g ≡ (g1, ok tt)
        → e.code ≡ verify_failed
        → e.retryable ≡ false
        → WriteEnd readback g (g2, err e)

  module _ (bound : address + length bytes ≤ u64_mod) (g : G) where
    compared-WriteEnd :
        (g1 : G)
        → gw.write_bytes address bytes g ≡ (g1, ok tt)
        → (answer : G × Result (List ℕ)) → gw.read_bytes address (length bytes) g1 ≡ answer
        → WriteEnd readback g (compared gw address bytes answer)
    unfolding readback_transport_failure
    compared-WriteEnd g1 w (g2, err e) r = unverified w refl refl
    compared-WriteEnd g1 w (g2, ok actual) r =
        elim (verify_memory_readback_cases address bytes actual bound) [
          | inl (same, accepted) ↦ rw accepted (verified w (r ∙ ap (λ bs. (g2, ok bs)) (sym same)))
          | inr (inl (other, refused)) ↦ rw refused (unverified w refl refl)
          | inr (inr (d, refused)) ↦ rw refused (unverified w refl refl)
        ]

    wrote-WriteEnd :
        (v : WriteVerify) (answer : G × Result (Unit {0}))
        → gw.write_bytes address bytes g ≡ answer
        → WriteEnd v g (after_write gw address bytes v answer)
    unfolding verify_if_requested
    wrote-WriteEnd v (g1, err e) w = not_written w
    wrote-WriteEnd skip (g1, ok tt) w = written w
    wrote-WriteEnd readback (g1, ok tt) w = compared-WriteEnd g1 w _ refl

    -- A write of a range that ends below 2^64 fails as the gateway fails; or it is done and no readback
    -- was asked for; or it is done and the bytes read back are the bytes written; or it is done and the
    -- caller gets a verification error that must not be replayed.
    pub write_verified-WriteEnd :
        (v : WriteVerify) → WriteEnd v g (write_verified gw address bytes v g)
    unfolding write_verified
    write_verified-WriteEnd v = wrote-WriteEnd v _ refl
