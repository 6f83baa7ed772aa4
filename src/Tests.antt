-- ===== src/Tests.antt =====
-- Tests of the definitions at concrete inputs, and instances of the theorems.
mod Trees
mod Payments
mod Admissions
mod Receipts
mod Operations
mod Exports
mod Trusts
mod Publications
mod Erasures
mod Collections
mod Custodies
