-- ===== src/Proto/Wire/Negotiation.antt =====
-- validate.rs: two valid Hellos agree on limits and features, whichever side negotiates.
use clew.Prelude.{◌≡◌, ◌≤◌, ◌<◌, refl, Bool, true, false, ◌&&◌, List, [], ◌∷◌, min, arith, ◌∙◌}
use clew.Prelude.Tests.{◌==◌}
use clew.Prelude.Lists.{any, retain}
use clew.Prelude.Outcome.{Result, ok, ◌>>◌, checked, ok-injective}
use clew.Proto.{wire_major, hard_max_frame_size, hard_max_concurrent_requests}
use clew.Proto.Wire.{
  Hello, Feature, WireValidationError, NegotiatedLimits, validate_hello, negotiate_limits,
  negotiated_implemented_features, feature_negotiated, hello_advertises_feature,
  locally_implements_feature, implemented_features, feature_number,
}

-- What the limits of a valid Hello are like.
pub record IsWithin (hello : Hello) : Type 0 where
  pub frame_positive : 0 < hello.max_frame_size
  pub frame_small : hello.max_frame_size ≤ hard_max_frame_size
  pub some_request : 0 < hello.max_concurrent_requests
  pub few_requests : hello.max_concurrent_requests ≤ hard_max_concurrent_requests
  pub own_version : hello.wire_major ≡ wire_major

validate_hello-IsWithin : (hello : Hello) → validate_hello hello ≡ ok tt → IsWithin hello
unfolding validate_hello
validate_hello-IsWithin hello q = record {
  frame_positive = ground (arith, q);
  frame_small = ground (arith, q);
  some_request = ground (arith, q);
  few_requests = ground (arith, q);
  own_version = ground (arith, q);
}

-- Both Hellos were checked.
module _ {A : Type 0} (own peer : Hello) (answer : A) where
  abbrev negotiated : Result WireValidationError A
  negotiated = validate_hello own >> (validate_hello peer >> ok answer)

  both_valid :
      (a : A)
      → negotiated ≡ ok a
      → (validate_hello own ≡ ok tt) × (validate_hello peer ≡ ok tt) × (answer ≡ a)
  both_valid a q =
      let (v, q1) = checked (validate_hello own) (validate_hello peer >> ok answer) a q in
      let (w, q2) = checked (validate_hello peer) (ok answer) a q1 in (v, w, ok-injective q2)

  valid_both : validate_hello own ≡ ok tt → validate_hello peer ≡ ok tt → negotiated ≡ ok answer
  valid_both v w = rw (v, w) refl

-- Limits that both sides can keep.
pub record IsAgreed (own peer : Hello) (limits : NegotiatedLimits) : Type 0 where
  pub reversed : negotiate_limits peer own ≡ ok limits
  pub frame_positive : 0 < limits.max_frame_size
  pub frame_own : limits.max_frame_size ≤ own.max_frame_size
  pub frame_peer : limits.max_frame_size ≤ peer.max_frame_size
  pub frame_small : limits.max_frame_size ≤ hard_max_frame_size
  pub some_request : 0 < limits.max_concurrent_requests
  pub requests_own : limits.max_concurrent_requests ≤ own.max_concurrent_requests
  pub requests_peer : limits.max_concurrent_requests ≤ peer.max_concurrent_requests
  pub few_requests : limits.max_concurrent_requests ≤ hard_max_concurrent_requests

abbrev limits_of : Hello → Hello → NegotiatedLimits
limits_of own peer = record {
  max_frame_size = min own.max_frame_size peer.max_frame_size;
  max_concurrent_requests = min own.max_concurrent_requests peer.max_concurrent_requests;
}

limits_swap : (own peer : Hello) → limits_of peer own ≡ limits_of own peer
limits_swap own peer =
    let frames : min peer.max_frame_size own.max_frame_size
        ≡ min own.max_frame_size peer.max_frame_size =
      omega arith in
    let requests : min peer.max_concurrent_requests own.max_concurrent_requests
        ≡ min own.max_concurrent_requests peer.max_concurrent_requests =
      omega arith in
    rw (frames, requests) refl

-- Limits that two Hellos negotiate are positive, within those of both and within the hard limits,
-- and the other side, negotiating the other way round, finds the same.
pub negotiate_limits_lem :
    (own peer : Hello) (limits : NegotiatedLimits)
    → negotiate_limits own peer ≡ ok limits
    → IsAgreed own peer limits
unfolding negotiate_limits
negotiate_limits_lem own peer limits q =
    let (v, w, same) = both_valid own peer (limits_of own peer) limits q in
    let a = validate_hello-IsWithin own v in
    let b = validate_hello-IsWithin peer w in
    rw (← same) record {
      reversed = rw (limits_swap own peer) (valid_both peer own (limits_of own peer) w v);
      frame_positive = omega (arith, a.frame_positive, b.frame_positive);
      frame_own = omega arith;
      frame_peer = omega arith;
      frame_small = omega (arith, a.frame_small);
      some_request = omega (arith, a.some_request, b.some_request);
      requests_own = omega arith;
      requests_peer = omega arith;
      few_requests = omega (arith, a.few_requests);
    }

-- Membership of a feature in a list, by its number.
unfoldable pub has_feature : Feature → List Feature → Bool
unfolding any feature_number
has_feature f = any (λ g. feature_number g == feature_number f)

any-retain :
    {A : Type 0} (q p : A → Bool) (xs : List A) → any q (retain p xs) ≡ any (λ x. q x && p x) xs
unfolding any retain
any-retain q p [] = refl
any-retain q p (x ∷ xs) = ground (arith, any-retain q p xs)

-- Both sides advertise the feature.
abbrev both_advertise : Hello → Hello → Feature → Bool
both_advertise own peer f = hello_advertises_feature own f && hello_advertises_feature peer f

kept_iff :
    (p : Feature → Bool) (f : Feature)
    → has_feature f (retain p implemented_features) ≡ (locally_implements_feature f && p f)
unfolding has_feature locally_implements_feature
kept_iff p f =
    any-retain (λ g. feature_number g == feature_number f) p implemented_features ∙ by_number p f
  where
    by_number :
        (p : Feature → Bool) (f : Feature)
        → any (λ g. (feature_number g == feature_number f) && p g) implemented_features
          ≡ (locally_implements_feature f && p f)
    by_number p Feature.unspecified = ground arith
    by_number p Feature.tool_rpc = ground arith
    by_number p Feature.shell_task = ground arith
    by_number p Feature.forward = ground arith
    by_number p Feature.socks5 = ground arith
    by_number p Feature.http_connect = ground arith
    by_number p Feature.file_resume = ground arith

and_assoc : (a b c : Bool) → ((a && b) && c) ≡ (a && (b && c))
and_assoc true b c = refl
and_assoc false b c = refl

advertise_swap :
    (own peer : Hello) (xs : List Feature)
    → retain (both_advertise peer own) xs ≡ retain (both_advertise own peer) xs
unfolding retain
advertise_swap own peer [] = refl
advertise_swap own peer (x ∷ xs) = ground (arith, advertise_swap own peer xs)

-- What two sides make of a list of negotiated features.
pub record IsCommon (own peer : Hello) (features : List Feature) : Type 0 where
  pub reversed : negotiated_implemented_features peer own ≡ ok features
  pub each : (f : Feature) → feature_negotiated own peer f ≡ ok (has_feature f features)
  pub advertised :
      (f : Feature)
      → has_feature f features ≡ (
          locally_implements_feature f
          && (hello_advertises_feature own f && hello_advertises_feature peer f))

-- The features that two Hellos negotiate are those that this build implements and that both
-- advertise; `feature_negotiated` says the same of each feature, and the other side, negotiating
-- the other way round, finds the same list.
pub negotiated_implemented_features_lem :
    (own peer : Hello) (features : List Feature)
    → negotiated_implemented_features own peer ≡ ok features
    → IsCommon own peer features
unfolding negotiated_implemented_features feature_negotiated
negotiated_implemented_features_lem own peer features q =
    let found = retain (both_advertise own peer) implemented_features in
    let (v, w, same) = both_valid own peer found features q in
    rw (← same) record {
      reversed = rw (advertise_swap own peer implemented_features) (valid_both peer own found w v);
      each = λ f.
          let here = locally_implements_feature f in
          let advertises = hello_advertises_feature own f in
          let peer_advertises = hello_advertises_feature peer f in
          rw (kept_iff (both_advertise own peer) f, ← and_assoc here advertises peer_advertises)
            (valid_both own peer (here && advertises && peer_advertises) v w);
      advertised = λ f. kept_iff (both_advertise own peer) f;
    }
