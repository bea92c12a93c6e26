-- ===== src/Examples.antt =====
-- A database in memory that meets the ORM's laws, and runs of the program on it.
mod Take
mod Table
mod Data
mod Tests
mod VendorTests
mod Sends
mod Values
mod Reports
mod Vendors
mod Environment
mod Broken
mod Swept
mod Logging
mod Stored
mod Workers
mod Overlap
mod Refused
mod Failing
mod Worlds
mod Shipped
