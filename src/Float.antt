-- ===== src/Float.antt =====
-- The `f64` arithmetic that the sources use: conversion, product, quotient and the cast to `u64`.
-- The numbers themselves are a type parameter.
use ckb_bench_archived.Base.{ℕ, ◌*◌, ◌/◌, ◌^◌, ◌-◌, ◌<◌, ◌≡◌, refl, ◌==◌, if◌then◌else◌, arith}
use native.Mathlib.Nat.{mul-one, one-mul}

pub record Float (F : Type 0) : Type 0 where
  -- `n as f64`, `a * b`, `a / b`, `x as u64`
  pub of_int : ℕ → F
  pub mul : F → F → F
  pub div : F → F → F
  pub to_u64 : F → ℕ

-- IEEE 754 doubles on whole numbers below 2 ^ 53: a product that stays there is exact, a rounded
-- quotient has the whole part of the quotient; a cast saturates, and takes what is no number to 0.
pub record IsDouble {F : Type 0} (f : Float F) : Type 0 where
  pub mul_exact : (a b : ℕ) → a * b < 2 ^ 53 → f.mul (f.of_int a) (f.of_int b) ≡ f.of_int (a * b)
  pub div_whole :
      (a b : ℕ)
      → a < 2 ^ 53
      → b < 2 ^ 53
      → 0 < b
      → f.to_u64 (f.div (f.of_int a) (f.of_int b)) ≡ a / b
  pub div_zero :
      (a : ℕ) → f.to_u64 (f.div (f.of_int a) (f.of_int 0)) ≡ (if a == 0 then 0 else 2 ^ 64 - 1)

-- Fractions satisfy these laws.
abbrev pub fractions : Float (ℕ × ℕ)
fractions = record {
  of_int = λ n. (n, 1);
  mul = λ (a, b) (c, d). (a * c, b * d);
  div = λ (a, b) (c, d). (a * d, b * c);
  to_u64 = λ (a, b). if b == 0 then if a == 0 then 0 else 2 ^ 64 - 1 else a / b;
}

pub fractions-IsDouble : IsDouble fractions
fractions-IsDouble = record {
  mul_exact = λ a b h. refl;
  div_whole = λ a b ha hb pos. rw (mul-one, one-mul) (ground arith);
  div_zero = λ a. rw mul-one (ground arith);
}
